-- ===== src/Config/Steps.antt =====
-- Chains of steps on the disk: what a chain that returns came from, and what every chain keeps.
use expo_builder_local.Prelude.{
  ℕ, zero, suc, ◌≤◌, Bytes, List, [], ◌∷◌, ◌≡◌, refl, ◌∙◌, length, take, arith, inl, inr,
  Bool-cases, ap, codes,
}
use expo_builder_local.Exception.{Result, ok, err, stuck}
use expo_builder_local.Config.{ExpoTokenEntry, EblConfig, is_kept}
use expo_builder_local.Config.Fields.{entry_value, plain_fields}
use expo_builder_local.Json.Value.{string, array, nil}
use expo_builder_local.Json.Access.{set}
use expo_builder_local.Config.Store.{
  Host, Disk, Step, and_then, lift, draw, generate_aes_key, encrypt, ensure_master_key, set_token,
  save_entries, build_root, Value,
}

pub take_all : (n : ℕ) (s : Bytes) → length s ≤ n → take n s ≡ s
take_all zero [] h = refl
take_all zero (c ∷ s) h = absurd (omega arith)
take_all (suc n) [] h = refl
take_all (suc n) (c ∷ s) h = ap (λ l. c ∷ l) (take_all n s (omega arith))

module _ (host : Host) where
  open host use {Seed}

  and_then_ok :
      {A B : Type 0} (r : Result A × Disk Seed) (f : A → Step host B) {b : B} {d' : Disk Seed}
      → and_then host r f ≡ (ok b, d')
      → (a : A) × (d1 : Disk Seed) × (r ≡ (ok a, d1)) × (f a d1 ≡ (ok b, d'))
  and_then_ok (ok a, d1) f h = (a, d1, refl, h)
  and_then_ok (err e, d1) f h = cc
  and_then_ok (stuck, d1) f h = cc

  -- The first step of a chain that returns has returned, and so has the rest.
  pub >>=-ok :
      {A B : Type 0} (m : Step host A) (f : A → Step host B) (d : Disk Seed) {b : B}
      {d' : Disk Seed}
      → and_then host (m d) f ≡ (ok b, d')
      → (a : A) × (d1 : Disk Seed) × (m d ≡ (ok a, d1)) × (f a d1 ≡ (ok b, d'))
  >>=-ok m f d h = and_then_ok (m d) f h

  pub lift_ok :
      {A : Type 0} (r : Result A) (a : A) (d d1 : Disk Seed)
      → lift host r d ≡ (ok a, d1)
      → (r ≡ ok a) × (d ≡ d1)
  lift_ok r a d d1 h = (ap (λ x. x.0) h, ap (λ x. x.1) h)

  -- A step that leaves the configuration file and the free space alone.
  abbrev pub Keeps : {A : Type 0} → Step host A → Type 0
  Keeps m = (d : Disk Seed) → ((m d).1.config_file ≡ d.config_file) × ((m d).1.space ≡ d.space)

  pub and_then-Keeps :
      {A B : Type 0} (r : Result A × Disk Seed) (f : A → Step host B) (d : Disk Seed)
      → (r.1.config_file ≡ d.config_file) × (r.1.space ≡ d.space)
      → ((a : A) → Keeps (f a))
      → ((and_then host r f).1.config_file ≡ d.config_file)
        × ((and_then host r f).1.space ≡ d.space)
  and_then-Keeps (ok a, d1) f d (h, k) hf = ((hf a d1).0 ∙ h, (hf a d1).1 ∙ k)
  and_then-Keeps (err e, d1) f d h hf = h
  and_then-Keeps (stuck, d1) f d h hf = h

  pub lift-Keeps : {A : Type 0} (r : Result A) → Keeps (lift host r)
  lift-Keeps r d = (refl, refl)

  -- A step that changes nothing but the seed.
  abbrev pub OnlySeed : {A : Type 0} → Step host A → Type 0
  OnlySeed m = (d : Disk Seed) → (s : Seed) × ((m d).1 ≡ record d { seed = s })

  pub OnlySeed-Keeps : {A : Type 0} (m : Step host A) → OnlySeed m → Keeps m
  OnlySeed-Keeps m h d = let (s, e) = h d in (ap (λ x. x.config_file) e, ap (λ x. x.space) e)

  pub and_then_only :
      {A B : Type 0} (r : Result A × Disk Seed) (f : A → Step host B) (d : Disk Seed)
      → (s : Seed) × (r.1 ≡ record d { seed = s })
      → ((a : A) → OnlySeed (f a))
      → (s : Seed) × ((and_then host r f).1 ≡ record d { seed = s })
  and_then_only (ok a, d1) f d (s, h) hf =
      let (s2, k) = hf a d1 in
      (s2, k ∙ ap {A = Disk Seed} {B = Disk Seed} (λ x. record x { seed = s2 }) h)
  and_then_only (err e, d1) f d h hf = h
  and_then_only (stuck, d1) f d h hf = h

  pub lift-OnlySeed : {A : Type 0} (r : Result A) → OnlySeed (lift host r)
  lift-OnlySeed r d = (d.seed, refl)

  pub draw-OnlySeed : (n : ℕ) → OnlySeed (draw host n)
  unfolding draw
  draw-OnlySeed n d = (_, refl)

  pub generate_aes_key-OnlySeed : OnlySeed (generate_aes_key host)
  unfolding generate_aes_key
  generate_aes_key-OnlySeed d =
      and_then_only (draw host 32 d) _ d (draw-OnlySeed 32 d) (λ b d1. (d1.seed, refl))

  pub encrypt-OnlySeed : (p key : Bytes) → OnlySeed (encrypt host p key)
  unfolding encrypt
  encrypt-OnlySeed p key d =
      and_then_only (draw host 12 d) _ d (draw-OnlySeed 12 d) (λ b d1. (d1.seed, refl))

  pub ensure_master_key-OnlySeed : (s : Bytes) → OnlySeed (ensure_master_key host s)
  unfolding ensure_master_key
  ensure_master_key-OnlySeed [] d =
      and_then_only (generate_aes_key host d) _ d (generate_aes_key-OnlySeed d)
        (λ b d1. (d1.seed, refl))
  ensure_master_key-OnlySeed (c ∷ s) d = (d.seed, refl)

  pub set_token-OnlySeed :
      (s key : Bytes) (root : Value host) → OnlySeed (set_token host s key root)
  unfolding set_token
  set_token-OnlySeed [] key root d = (d.seed, refl)
  set_token-OnlySeed (c ∷ s) key root d =
      and_then_only (encrypt host (c ∷ s) key d) _ d (encrypt-OnlySeed (c ∷ s) key d)
        (λ b d1. (d1.seed, refl))

  pub save_entries-OnlySeed :
      (entries : List ExpoTokenEntry) (key : Bytes) (tokens : Value host)
      → OnlySeed (save_entries host entries key tokens)
  unfolding save_entries
  save_entries-OnlySeed [] key tokens d = (d.seed, refl)
  save_entries-OnlySeed (entry ∷ entries) key tokens d = elim (Bool-cases (is_kept entry)) [
    | inl e ↦ rw e (
        and_then_only (encrypt host entry.token key d) _ d (encrypt-OnlySeed entry.token key d)
          λ enc d1.
            and_then_only (lift host (entry_value host.doubles entry.owner enc) d1) _ d1
              (d1.seed, refl)
              λ obj d2.
                and_then_only (lift host _ d2) _ d2 (d2.seed, refl)
                  λ tokens2. save_entries-OnlySeed entries key tokens2)
    | inr e ↦ rw e (save_entries-OnlySeed entries key tokens d)
  ]

  pub build_root-OnlySeed : (cfg : EblConfig) (key : Bytes) → OnlySeed (build_root host cfg key)
  unfolding build_root
  build_root-OnlySeed cfg key d =
      and_then_only (lift host (plain_fields host.doubles cfg) d) _ d (d.seed, refl)
        λ head d1.
          and_then_only (encrypt host cfg.master_key key d1) _ d1
            (encrypt-OnlySeed cfg.master_key key d1)
            λ enc d2.
              and_then_only (lift host (set (codes "masterKeyEnc") (string enc) head) d2) _ d2
                (d2.seed, refl)
                λ r5 d3.
                  and_then_only (set_token host cfg.expo_token key r5 d3) _ d3
                    (set_token-OnlySeed cfg.expo_token key r5 d3)
                    λ r6 d4.
                      and_then_only (save_entries host cfg.expo_tokens_by_owner key (array nil) d4)
                        _ d4 (save_entries-OnlySeed cfg.expo_tokens_by_owner key (array nil) d4)
                        λ tokens d5. (d5.seed, refl)
