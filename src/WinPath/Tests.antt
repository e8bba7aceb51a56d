-- ===== src/WinPath/Tests.antt =====
-- Runs of the translation, and the theorems at work on concrete paths.
use expo_builder_local.Prelude.{◌∷◌, true, codes, ◌≡◌, refl, ◌≢◌, All, arith}
use expo_builder_local.WinPath.{forward_slashes, is_drive, to_docker_bind_path}
use expo_builder_local.WinPath.Laws.{to_docker_bind_path_forward}

translated : to_docker_bind_path true (codes "C:\\Users/me\\app") ≡ codes "//c/Users/me/app"
unfolding to_docker_bind_path
translated = refl

to_docker_bind_path_forward_example :
    All (λ x. x ≢ b'\\') (to_docker_bind_path true (codes "C:\\a\\b"))
    × (to_docker_bind_path true (b'C' ∷ forward_slashes (codes ":\\a\\b"))
        ≡ to_docker_bind_path true (codes "C:\\a\\b"))
to_docker_bind_path_forward_example =
    to_docker_bind_path_forward b'C' b':' b'\\' (codes "a\\b") (unfold is_drive in refl)
      (omega arith)
