-- ===== src/Config.antt =====
-- cli-cpp-legacy/src/config_store.cpp and config_store.hpp: the configuration on disk.
pub mod Fields
pub mod Store
pub mod Steps
pub mod Atomic
pub mod Secrets
pub mod Entries
pub mod Rebuild
pub mod Reload
pub mod RoundTrip
mod Tests
use expo_builder_local.Prelude.{
  ℕ, ◌%◌, ◌^◌, ◌-◌, ◌+◌, Bytes, List, [], ◌∷◌, bytes_eq, Bool, true, false, not, ◌&&◌, ltb,
  if◌then◌else◌,
}
use expo_builder_local.Prelude.Int.{ℤ, pos, negsuc}

pub record ExpoTokenEntry : Type 0 where
  pub owner : Bytes
  pub token : Bytes

pub record EblConfig : Type 0 where
  pub projects_root : Bytes
  pub orchestrator_port : ℤ
  pub web_port : ℤ
  pub master_key : Bytes
  pub expo_token : Bytes
  pub expo_tokens_by_owner : List ExpoTokenEntry
  pub setup_completed_at : ℤ

-- A configuration with the defaults of its members.
abbrev pub default_config : EblConfig
default_config = record {
  projects_root = [];
  orchestrator_port = pos 4001;
  web_port = pos 3000;
  master_key = [];
  expo_token = [];
  expo_tokens_by_owner = [];
  setup_completed_at = pos 0;
}

unfoldable pub is_empty : Bytes → Bool
is_empty [] = true
is_empty (c ∷ s) = false

unfoldable pub owner_token : Bytes → Bytes → List ExpoTokenEntry → Bytes
owner_token owner fallback [] = fallback
owner_token owner fallback (entry ∷ entries) =
    if bytes_eq entry.owner owner then entry.token else owner_token owner fallback entries

-- `expoTokenFor`
unfoldable pub expo_token_for : EblConfig → Bytes → Bytes
unfolding owner_token is_empty
expo_token_for cfg owner =
    if not (is_empty owner)
    then owner_token owner cfg.expo_token cfg.expo_tokens_by_owner
    else cfg.expo_token

-- The entries that `saveConfig` writes: those with an owner and a token.
unfoldable pub is_kept : ExpoTokenEntry → Bool
unfolding is_empty
is_kept entry = not (is_empty entry.owner) && not (is_empty entry.token)

-- static_cast<int> of a long long: the low 32 bits, read as a signed number
unfoldable pub wrap_int : ℕ → ℤ
wrap_int n = if ltb n (2 ^ 31) then pos n else negsuc (2 ^ 32 - 1 - n)

unfoldable pub to_int32 : ℤ → ℤ
unfolding wrap_int
to_int32 (pos n) = wrap_int (n % 2 ^ 32)
to_int32 (negsuc n) = wrap_int (2 ^ 32 - 1 - n % 2 ^ 32)

-- The entries that the loop of `saveConfig` does not pass over.
unfoldable pub kept : List ExpoTokenEntry → List ExpoTokenEntry
unfolding is_kept
kept [] = []
kept (entry ∷ entries) = let rest = kept entries in if is_kept entry then entry ∷ rest else rest
