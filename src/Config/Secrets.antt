-- ===== src/Config/Secrets.antt =====
-- What is encrypted while a configuration is saved decrypts again when it is loaded.
use expo_builder_local.Prelude.{
  ℕ, ◌≤◌, ◌^◌, Bytes, [], ◌∷◌, true, false, Option, none, some, ◌≡◌, refl, sym, ◌∙◌, ap, length,
  take, ◌==◌, Bool-cases, inl, inr, arith, All, IsByte,
}
use expo_builder_local.Prelude.Int.{ℤ}
use expo_builder_local.Exception.{ok}
use expo_builder_local.Doubles.{PrintLaws}
use expo_builder_local.Decimal.{fits}
use expo_builder_local.Base64.{encode, decode}
use expo_builder_local.Base64.Laws.{decode-encode}
use expo_builder_local.Base64.Shape.{length-encode}
use expo_builder_local.Crypto.{AesLaws, aes_encrypt, aes_decrypt}
use expo_builder_local.Crypto.Laws.{aes_decrypt-aes_encrypt, aes_decrypt_authentic}
use expo_builder_local.Json.Parser.Numbers.{IsReadable}
use expo_builder_local.Config.{is_empty}
use expo_builder_local.Config.Store.{
  Host, Disk, lift, draw, key_drawn, generate_aes_key, write_key, create_key, key_or_create,
  key_from, load_or_create_machine_key, encrypt,
}
use expo_builder_local.Config.Steps.{take_all, >>=-ok}

-- What the libraries document.
pub record HostLaws (host : Host) : Type 0 where
  pub print_laws : PrintLaws host.doubles
  pub aes_laws : AesLaws host.aes
  pub random_bytes :
      (n : ℕ) (s : host.Seed) (bytes : Bytes)
      → (host.rand_bytes n s).0 ≡ some bytes
      → (length bytes ≡ n) × All IsByte bytes
  -- a double holds integers below 10 ^ 15 exactly
  pub readable_int :
      (z : ℤ) → fits (10 ^ 15) z ≡ true → IsReadable host.doubles (host.doubles.of_int z)
  pub to_int-of_int :
      (z : ℤ) → fits (10 ^ 15) z ≡ true → host.doubles.to_int (host.doubles.of_int z) ≡ z

module _ (host : Host) (laws : HostLaws host) where
  open host use {Seed, doubles, aes}

  draw_ok :
      (n : ℕ) (d d1 : Disk Seed) (o : Option Bytes)
      → draw host n d ≡ (ok o, d1)
      → ((host.rand_bytes n d.seed).0 ≡ o) × (d1 ≡ record d { seed = (host.rand_bytes n d.seed).1 })
  unfolding draw
  draw_ok n d d1 o h = (cc, cc)

  decrypts-ne : (e key p : Bytes) → aes_decrypt aes e key ≡ ok p → is_empty e ≡ false
  unfolding is_empty decode
  decrypts-ne [] key p h =
      let (blob, d, n, u) = aes_decrypt_authentic aes laws.aes_laws [] key p h in
      let q : [] ≡ blob = cc in absurd (omega (arith, ap length q))
  decrypts-ne (c ∷ s) key p h = refl

  sealed_ok :
      (o : Option Bytes) (s : Seed) (p key e : Bytes)
      → (host.rand_bytes 12 s).0 ≡ o
      → aes_encrypt aes o p key ≡ ok e
      → aes_decrypt aes e key ≡ ok p
  sealed_ok none s p key e h k = absurd (unfold aes_encrypt in cc k)
  sealed_ok (some iv) s p key e h k =
      let (hl, hb) = laws.random_bytes 12 s iv h in
      aes_decrypt-aes_encrypt aes laws.aes_laws iv p key e hl hb k

  -- What a step encrypts decrypts to its plaintext.
  pub encrypt_ok :
      (p key e : Bytes) (d d' : Disk Seed)
      → encrypt host p key d ≡ (ok e, d')
      → (aes_decrypt aes e key ≡ ok p) × (is_empty e ≡ false)
  unfolding encrypt
  encrypt_ok p key e d d' h =
      let (o, d1, e1, e2) = >>=-ok host (draw host 12) _ d h in
      let (r, _) = draw_ok 12 d d1 o e1 in
      let q = sealed_ok o d.seed p key e r cc in (q, decrypts-ne e key p q)

  -- The key file of a disk holds a key.
  pub record HasKey (d : Disk Seed) (key : Bytes) : Type 0 where
    pub file : Bytes
    pub stored : d.key_file ≡ some file
    pub decoded : decode file ≡ ok key
    pub size : length key ≡ 32

  -- The key is read again.
  pub load_key_again :
      (d : Disk Seed) (key : Bytes) → HasKey d key → load_or_create_machine_key host d ≡ (ok key, d)
  unfolding load_or_create_machine_key key_from key_or_create
  load_key_again d key k =
      let e : (length key == 32) ≡ true = ground (arith, k.size) in rw (k.stored, k.decoded, e) refl

  write_key_ok :
      (s : Bytes) (d d1 : Disk Seed)
      → length s ≤ d.space
      → write_key host s d ≡ (ok tt, d1)
      → d1 ≡ record d { key_file = some s }
  unfolding write_key
  write_key_ok s d d1 hs h = elim (Bool-cases d.can_open_key) [
    | inl e ↦
        let q : record d { key_file = some (take d.space s) } ≡ d1 = cc (rw e at h) in
        sym q
        ∙ ap {A = Bytes} {B = Disk Seed} (λ x. record d { key_file = some x })
            (take_all d.space s hs)
    | inr e ↦ absurd (cc (rw e at h))
  ]

  generated :
      (o : Option Bytes) (s : Seed) (key : Bytes)
      → (host.rand_bytes 32 s).0 ≡ o
      → key_drawn host o ≡ ok key
      → (length key ≡ 32) × All IsByte key
  unfolding key_drawn
  generated none s key h k = absurd (cc k)
  generated (some bytes) s key h k =
      let e : bytes ≡ key = cc in laws.random_bytes 32 s key (h ∙ ap some e)

  generate_ok :
      (d d1 : Disk Seed) (key : Bytes)
      → generate_aes_key host d ≡ (ok key, d1)
      → (length key ≡ 32) × All IsByte key × (d1.space ≡ d.space)
  unfolding generate_aes_key
  generate_ok d d1 key h =
      let (o, d2, e1, e2) = >>=-ok host (draw host 32) _ d h in
      let (r, m) = draw_ok 32 d d2 o e1 in
      let (hl, hb) = generated o d.seed key r cc in
      let same : d2 ≡ d1 = cc in (hl, hb, ap (λ x. x.space) (sym same ∙ m))

  create_key_ok :
      (d d1 : Disk Seed) (key : Bytes)
      → 44 ≤ d.space
      → create_key host d ≡ (ok key, d1)
      → HasKey d1 key
  unfolding create_key
  create_key_ok d d1 key hs h =
      let (k, d2, e1, e2) = >>=-ok host (generate_aes_key host) _ d h in
      let (u, d3, e3, e4) = >>=-ok host (write_key host (encode k)) _ d2 e2 in
      let (hl, hb, sp) = generate_ok d d2 k e1 in
      let fits_in : length (encode k) ≤ d2.space = omega (arith, length-encode k, hl, sp, hs) in
      let m : d3 ≡ record d2 { key_file = some (encode k) } =
        write_key_ok (encode k) d2 d3 fits_in e3 in
      let same_key : k ≡ key = cc in
      let same : d3 ≡ d1 = cc in
      record {
        file = encode k;
        stored = ap (λ x. x.key_file) (sym same ∙ m);
        decoded = decode-encode k hb ∙ ap ok same_key;
        size = ap length (sym same_key) ∙ hl;
      }

  key_or_create_ok :
      (s decoded : Bytes) (d d1 : Disk Seed) (key : Bytes)
      → 44 ≤ d.space
      → d.key_file ≡ some s
      → decode s ≡ ok decoded
      → key_or_create host decoded d ≡ (ok key, d1)
      → HasKey d1 key
  unfolding key_or_create
  key_or_create_ok s decoded d d1 key hs hf hd h = elim (Bool-cases (length decoded == 32)) [
    | inr e ↦ create_key_ok d d1 key hs (rw e at h)
    | inl e ↦
        let q : (ok decoded, d) ≡ (ok key, d1) = rw e at h in
        let same_key : decoded ≡ key = cc in
        let same : d ≡ d1 = cc in
        record {
          file = s;
          stored = ap (λ x. x.key_file) (sym same) ∙ hf;
          decoded = hd ∙ ap ok same_key;
          size = ap length (sym same_key) ∙ ground arith;
        }
  ]

  key_from_ok :
      (o : Option Bytes) (d d1 : Disk Seed) (key : Bytes)
      → 44 ≤ d.space
      → d.key_file ≡ o
      → key_from host o d ≡ (ok key, d1)
      → HasKey d1 key
  unfolding key_from
  key_from_ok none d d1 key hs hf h = create_key_ok d d1 key hs h
  key_from_ok (some s) d d1 key hs hf h =
      let (decoded, d2, e1, e2) = >>=-ok host (lift host (decode s)) _ d h in
      let hd : decode s ≡ ok decoded = cc in
      let same : d ≡ d2 = cc in key_or_create_ok s decoded d d1 key hs hf hd (rw same e2)

  -- Where `loadOrCreateMachineKey` returns a key, the key file holds it.
  pub load_key_ok :
      (d d1 : Disk Seed) (key : Bytes)
      → 44 ≤ d.space
      → load_or_create_machine_key host d ≡ (ok key, d1)
      → HasKey d1 key
  unfolding load_or_create_machine_key
  load_key_ok d d1 key hs h = key_from_ok d.key_file d d1 key hs refl h
