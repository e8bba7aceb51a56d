-- ===== src/Config/Atomic.antt =====
-- `saveConfig` replaces the configuration file as a whole or leaves it as it was.
use expo_builder_local.Prelude.{
  Bytes, Option, none, some, ◌≡◌, refl, ◌∙◌, ap, length, leb, leb→le, ◌==◌, Bool-cases, inl, inr,
}
use expo_builder_local.Exception.{Result, ok, err, stuck}
use expo_builder_local.Base64.{encode, decode}
use expo_builder_local.Json.Dump.{dump}
use expo_builder_local.Config.{EblConfig}
use expo_builder_local.Config.Store.{
  Host, Disk, Step, and_then, lift, generate_aes_key, write_key, create_key, key_or_create,
  key_from, load_or_create_machine_key, make_dir, ensure_master_key, build_root, write_temp,
  replace_config, store_config, save_config, Value,
}
use expo_builder_local.Config.Steps.{
  take_all, and_then-Keeps, Keeps, OnlySeed-Keeps, generate_aes_key-OnlySeed,
  ensure_master_key-OnlySeed, build_root-OnlySeed,
}

module _ (host : Host) where
  open host use {Seed, doubles}

  write_key-Keeps : (s : Bytes) → Keeps host (write_key host s)
  unfolding write_key
  write_key-Keeps s d = elim (Bool-cases d.can_open_key) [
    | inl e ↦ rw e (refl, refl)
    | inr e ↦ rw e (refl, refl)
  ]

  create_key-Keeps : Keeps host (create_key host)
  unfolding create_key
  create_key-Keeps d =
      and_then-Keeps host (generate_aes_key host d) _ d
        (OnlySeed-Keeps host (generate_aes_key host) (generate_aes_key-OnlySeed host) d)
        λ key d1.
          and_then-Keeps host (write_key host (encode key) d1) _ d1
            (write_key-Keeps (encode key) d1) λ u d2. (refl, refl)

  key_or_create-Keeps : (s : Bytes) → Keeps host (key_or_create host s)
  unfolding key_or_create
  key_or_create-Keeps s d = elim (Bool-cases (length s == 32)) [
    | inl e ↦ rw e (refl, refl)
    | inr e ↦ rw e (create_key-Keeps d)
  ]

  pub key_from-Keeps : (o : Option Bytes) → Keeps host (key_from host o)
  unfolding key_from
  key_from-Keeps none d = create_key-Keeps d
  key_from-Keeps (some s) d =
      and_then-Keeps host (lift host (decode s) d) _ d (refl, refl)
        λ decoded. key_or_create-Keeps decoded

  pub load_key-Keeps : Keeps host (load_or_create_machine_key host)
  unfolding load_or_create_machine_key
  load_key-Keeps d = key_from-Keeps d.key_file d

  pub make_dir-Keeps : Keeps host (make_dir host)
  unfolding make_dir
  make_dir-Keeps d = elim (Bool-cases d.can_make_dir) [
    | inl e ↦ rw e (refl, refl)
    | inr e ↦ rw e (refl, refl)
  ]

  -- The file behind a step: the text of a whole JSON value where the step returns, and the file of
  -- the disk `d` where it does not.
  pub Replaced : {A : Type 0} → Disk Seed → Result A × Disk Seed → Type 0
  Replaced d (ok a, d') = (root : Value host) × (d'.config_file ≡ some (dump doubles root))
  Replaced d (err e, d') = d'.config_file ≡ d.config_file
  Replaced d (stuck, d') = d'.config_file ≡ d.config_file

  Replaced-behind :
      {A B : Type 0} (r : Result A × Disk Seed) (f : A → Step host B) (d : Disk Seed)
      → (r.1.config_file ≡ d.config_file) × (r.1.space ≡ d.space)
      → ((a : A) (d1 : Disk Seed) → Replaced d1 (f a d1))
      → Replaced d (and_then host r f)
  unfolding Replaced
  Replaced-behind (ok a, d1) f d (h, k) hf = moved (f a d1) (hf a d1)
    where
      moved : {B : Type 0} (r : Result B × Disk Seed) → Replaced d1 r → Replaced d r
      moved (ok b, d') q = q
      moved (err e, d') q = q ∙ h
      moved (stuck, d') q = q ∙ h
  Replaced-behind (err e, d1) f d (h, k) hf = h
  Replaced-behind (stuck, d1) f d (h, k) hf = h

  write_replace :
      (cfg : EblConfig) (root : Value host) (d : Disk Seed)
      → Replaced d (
          and_then host
            (write_temp host (dump doubles root) d)
            λ w d1. and_then host (replace_config host d1) λ r d2. (ok cfg, d2))
  unfolding Replaced write_temp replace_config
  write_replace cfg root d = elim (Bool-cases d.can_open_temp) [
    | inr e ↦ rw e refl
    | inl e ↦ elim (Bool-cases (leb (length (dump doubles root)) d.space)) [
      | inr f ↦ rw (e, f) refl
      | inl f ↦ elim (Bool-cases d.can_rename) [
        | inr g ↦ rw (e, f, g) refl
        | inl g ↦ rw (e, f, g) (root, ap some (take_all d.space (dump doubles root) (leb→le _ _ f)))
      ]
    ]
  ]

  store_config-Replaced : (cfg : EblConfig) (d : Disk Seed) → Replaced d (store_config host cfg d)
  unfolding store_config
  store_config-Replaced cfg d =
      Replaced-behind (load_or_create_machine_key host d) _ d (load_key-Keeps d) λ key d1.
        Replaced-behind (build_root host cfg key d1) _ d1
          (OnlySeed-Keeps host (build_root host cfg key) (build_root-OnlySeed host cfg key) d1)
          λ root d2. write_replace cfg root d2

  -- Whatever calls fail in it, `saveConfig` replaces the configuration file with the text of a whole
  -- JSON value if it returns, and leaves the file as it was if it throws.
  pub save_config-Replaced : (cfg : EblConfig) (d : Disk Seed) → Replaced d (save_config host cfg d)
  unfolding save_config
  save_config-Replaced cfg d = Replaced-behind (make_dir host d) _ d (make_dir-Keeps d) λ u d1.
      Replaced-behind (ensure_master_key host cfg.master_key d1) _ d1
        (OnlySeed-Keeps host (ensure_master_key host cfg.master_key)
          (ensure_master_key-OnlySeed host cfg.master_key) d1)
        λ master d2. store_config-Replaced (record cfg { master_key = master }) d2
