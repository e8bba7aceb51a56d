-- ===== src/Config/Rebuild.antt =====
-- The object that `saveConfig` writes, and what it holds.
use expo_builder_local.Prelude.{
  ◌^◌, Bytes, [], ◌∷◌, true, false, Option, none, some, ◌≡◌, refl, sym, ◌∙◌, arith, codes,
}
use expo_builder_local.Prelude.Int.{ℤ, pos, negsuc}
use expo_builder_local.Exception.{ok, ok_inj}
use expo_builder_local.Decimal.{fits}
use expo_builder_local.Crypto.{aes_decrypt}
use expo_builder_local.Json.Value.{Fields, string, array, object, nil, field, end}
use expo_builder_local.Json.Access.{set}
use expo_builder_local.Config.{EblConfig, is_empty, kept, to_int32, wrap_int}
use expo_builder_local.Config.Fields.{num, plain_fields}
use expo_builder_local.Config.Store.{
  Host, Disk, lift, encrypt, load_entries, set_token, save_entries, Value, build_root,
}
use expo_builder_local.Config.Steps.{>>=-ok, lift_ok}
use expo_builder_local.Config.Secrets.{HostLaws, encrypt_ok}
use expo_builder_local.Config.Entries.{Loads, save_entries_ok}

-- The numbers of a configuration are `int`s, and a time that a double holds exactly.
pub record IsStorable (cfg : EblConfig) : Type 0 where
  pub orchestrator_int : fits (2 ^ 31) cfg.orchestrator_port ≡ true
  pub web_int : fits (2 ^ 31) cfg.web_port ≡ true
  pub time_exact : fits (10 ^ 15) cfg.setup_completed_at ≡ true

pub to_int32_same : (z : ℤ) → fits (2 ^ 31) z ≡ true → to_int32 z ≡ z
unfolding to_int32 wrap_int fits
to_int32_same (pos n) h = ground arith
to_int32_same (negsuc n) h = ground arith

pub fits_wider : (z : ℤ) → fits (2 ^ 31) z ≡ true → fits (10 ^ 15) z ≡ true
unfolding fits
fits_wider (pos n) h = ground arith
fits_wider (negsuc n) h = ground arith

module _ (host : Host) (laws : HostLaws host) where
  open host use {Seed, doubles, aes}

  abbrev pub token_field : Option Bytes → Fields doubles.Double → Fields doubles.Double
  token_field none fs = fs
  token_field (some enc) fs = field (codes "expoTokenEnc") (string enc) fs

  abbrev pub root_fields : EblConfig → Bytes → Fields doubles.Double → Fields doubles.Double
  root_fields cfg enc fs = field (codes "projectsRoot") (string cfg.projects_root) (
      field (codes "orchestratorPort") (num doubles cfg.orchestrator_port) (
        field (codes "webPort") (num doubles cfg.web_port) (
          field (codes "setupCompletedAt") (num doubles cfg.setup_completed_at)
            (field (codes "masterKeyEnc") (string enc) fs))))

  abbrev pub tokens_field : Value host → Fields doubles.Double
  tokens_field tokens = field (codes "expoTokensByOwner") tokens end

  -- The whole object that is saved.
  abbrev pub saved : EblConfig → Bytes → Option Bytes → Value host → Value host
  saved cfg enc o tokens = object (root_fields cfg enc (token_field o (tokens_field tokens)))

  abbrev pub TokenSaved : Option Bytes → Bytes → Bytes → Type 0
  TokenSaved none token key = token ≡ []
  TokenSaved (some enc) token key = (aes_decrypt aes enc key ≡ ok token) × (is_empty enc ≡ false)

  head_lem :
      (cfg : EblConfig) (enc : Bytes) (head r : Value host)
      → plain_fields doubles cfg ≡ ok head
      → set (codes "masterKeyEnc") (string enc) head ≡ ok r
      → r ≡ object (root_fields cfg enc end)
  unfolding plain_fields set
  head_lem cfg enc head r h k =
      let e : object (
            field (codes "projectsRoot") (string cfg.projects_root) (
              field (codes "orchestratorPort") (num doubles cfg.orchestrator_port) (
                field (codes "webPort") (num doubles cfg.web_port)
                  (field (codes "setupCompletedAt") (num doubles cfg.setup_completed_at) end))))
          ≡ head =
        ok_inj h in
      ok_inj (sym k ∙ rw (← e) refl)

  set_token_ok :
      (cfg : EblConfig) (enc s key : Bytes) (start r : Value host) (d d' : Disk Seed)
      → start ≡ object (root_fields cfg enc end)
      → set_token host s key start d ≡ (ok r, d')
      → (o : Option Bytes) × (r ≡ object (root_fields cfg enc (token_field o end)))
        × TokenSaved o s key
  unfolding set_token
  set_token_ok cfg enc [] key start r d d' hs h =
      (none, sym (ok_inj (lift_ok host (ok start) r d d' h).0) ∙ hs, refl)
  set_token_ok cfg enc (c ∷ s) key start r d d' hs h =
      let (te, d1, e1, e2) = >>=-ok host (encrypt host (c ∷ s) key) _ d h in
      (
        some te,
        ok_inj (sym (lift_ok host _ r d1 d' e2).0 ∙ rw hs (unfold set in refl)),
        encrypt_ok host laws (c ∷ s) key te d d1 e1,
      )

  root_lem :
      (cfg : EblConfig) (enc : Bytes) (o : Option Bytes) (tokens start r : Value host)
      → start ≡ object (root_fields cfg enc (token_field o end))
      → set (codes "expoTokensByOwner") tokens start ≡ ok r
      → r ≡ saved cfg enc o tokens
  unfolding set
  root_lem cfg enc none tokens start r h k = ok_inj (sym k ∙ rw h refl)
  root_lem cfg enc (some te) tokens start r h k = ok_inj (sym k ∙ rw h refl)

  -- What the object that is saved holds.
  pub record Rebuilds (root : Value host) (cfg : EblConfig) (key : Bytes) : Type 0 where
    pub enc : Bytes
    pub token : Option Bytes
    pub tokens : Value host
    pub shape : root ≡ saved cfg enc token tokens
    pub master : (aes_decrypt aes enc key ≡ ok cfg.master_key) × (is_empty enc ≡ false)
    pub token_saved : TokenSaved token cfg.expo_token key
    pub tokens_saved : Loads host laws tokens key (kept cfg.expo_tokens_by_owner)

  pub build_root_ok :
      (cfg : EblConfig) (key : Bytes) (root : Value host) (d d' : Disk Seed)
      → build_root host cfg key d ≡ (ok root, d')
      → Rebuilds root cfg key
  unfolding build_root
  build_root_ok cfg key root d d' h =
      let (head, d1, e1, f1) = >>=-ok host (lift host (plain_fields doubles cfg)) _ d h in
      let (enc, d2, e2, f2) = >>=-ok host (encrypt host cfg.master_key key) _ d1 f1 in
      let (r5, d3, e3, f3) =
        >>=-ok host (lift host (set (codes "masterKeyEnc") (string enc) head)) _ d2 f2 in
      let (r6, d4, e4, f4) = >>=-ok host (set_token host cfg.expo_token key r5) _ d3 f3 in
      let (tokens, d5, e5, f5) =
        >>=-ok host (save_entries host cfg.expo_tokens_by_owner key (array nil)) _ d4 f4 in
      let r5_is =
        head_lem cfg enc head r5 (lift_ok host _ head d d1 e1).0 (lift_ok host _ r5 d2 d3 e3).0 in
      let (o, r6_is, t) = set_token_ok cfg enc cfg.expo_token key r5 r6 d3 d4 r5_is e4 in
      record {
        enc = enc;
        token = o;
        tokens = tokens;
        shape = root_lem cfg enc o tokens r6 root r6_is (lift_ok host _ root d5 d' f5).0;
        master = encrypt_ok host laws cfg.master_key key enc d1 d2 e2;
        token_saved = t;
        tokens_saved =
            save_entries_ok host laws cfg.expo_tokens_by_owner key (array nil) nil [] d4 d5 tokens
              refl (unfold load_entries in refl) tt e5;
      }
