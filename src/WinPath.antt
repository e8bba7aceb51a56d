-- ===== src/WinPath.antt =====
-- cli-cpp-legacy/src/winpath.cpp: `toDockerBindPath`, in the build for Windows and in the others.
pub mod Laws
mod Tests
use expo_builder_local.Prelude.{
  ℕ, ◌+◌, ◌-◌, Bytes, [], ◌∷◌, Bool, true, false, ◌&&◌, ◌||◌, ◌==◌, leb, if◌then◌else◌,
}

-- The ASCII lower case of a drive letter.
unfoldable pub lower_drive : ℕ → ℕ
lower_drive c = if leb b'A' c && leb c b'Z' then c - b'A' + b'a' else c

unfoldable pub forward_slash : ℕ → ℕ
forward_slash c = if c == b'\\' then b'/' else c

unfoldable pub forward_slashes : Bytes → Bytes
unfolding forward_slash
forward_slashes [] = []
forward_slashes (c ∷ s) = forward_slash c ∷ forward_slashes s

-- `hostPath[1] == ':'` and a slash of either kind behind it
unfoldable pub is_drive : ℕ → ℕ → Bool
is_drive colon slash = (colon == b':') && (slash == b'\\' || slash == b'/')

-- the branch for _WIN32
unfoldable pub translate : Bytes → Bytes
unfolding lower_drive forward_slashes is_drive
translate (drive ∷ colon ∷ slash ∷ rest) =
    if is_drive colon slash
    then b'/' ∷ b'/' ∷ lower_drive drive ∷ b'/' ∷ forward_slashes rest
    else drive ∷ colon ∷ slash ∷ rest
translate path = path

-- `windows` says whether _WIN32 is defined.
unfoldable pub to_docker_bind_path : Bool → Bytes → Bytes
unfolding translate
to_docker_bind_path windows path = if windows then translate path else path
