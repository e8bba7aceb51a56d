-- ===== src/Config/RoundTrip.antt =====
-- `loadConfig` reads back what `saveConfig` writes.
use expo_builder_local.Prelude.{
  ℕ, ◌≤◌, Bytes, ◌∷◌, Bool, true, false, Option, none, some, ◌≡◌, refl, sym, ◌∙◌, ap, arith, length,
  leb, leb→le, if◌then◌else◌,
}
use expo_builder_local.Exception.{Exception, Result, ok, err, ok_inj}
use expo_builder_local.Json.Value.{object, Fields}
use expo_builder_local.Json.Dump.{dump}
use expo_builder_local.Json.Parser.{parse}
use expo_builder_local.Json.Parser.Steps.{IsPrintable}
use expo_builder_local.Json.Parser.RoundTrip.{parse-dump}
use expo_builder_local.Config.{EblConfig}
use expo_builder_local.Config.Store.{
  Host, Disk, Value, build_root, load_root, load_text, file_text, load_config,
  load_or_create_machine_key, make_dir, ensure_master_key, write_temp, replace_config, store_config,
  save_config,
}
use expo_builder_local.Config.Steps.{
  >>=-ok, take_all, OnlySeed-Keeps, build_root-OnlySeed, ensure_master_key-OnlySeed,
}
use expo_builder_local.Config.Atomic.{make_dir-Keeps}
use expo_builder_local.Config.Secrets.{HostLaws, HasKey, load_key_ok}
use expo_builder_local.Config.Rebuild.{IsStorable, Rebuilds, build_root_ok}
use expo_builder_local.Config.Reload.{reloaded, saved-IsPrintable, load_saved, tokens_again}

module _ (host : Host) where
  open host use {Seed, doubles}

  if_ok :
      (b : Bool) (r : Result (Unit {0}) × Disk Seed) (e : Exception) (x d1 : Disk Seed)
      → (if b then r else (err e, x)) ≡ (ok tt, d1)
      → (b ≡ true) × (r ≡ (ok tt, d1))
  if_ok true r e x d1 h = (refl, h)
  if_ok false r e x d1 h = absurd (cc (ap (λ p. p.0) h))

  write_temp_ok :
      (s : Bytes) (d d1 : Disk Seed)
      → write_temp host s d ≡ (ok tt, d1)
      → d1 ≡ record d { temp_file = some s }
  unfolding write_temp
  write_temp_ok s d d1 h =
      let (opened, h2) = if_ok d.can_open_temp _ _ d d1 h in
      let (room, h3) = if_ok (leb (length s) d.space) _ _ _ d1 h2 in
      sym (ap (λ x. x.1) h3)
      ∙ ap {A = Bytes} {B = Disk Seed} (λ x. record d { temp_file = some x })
          (take_all d.space s (leb→le _ _ room))

  replace_ok :
      (d d1 : Disk Seed)
      → replace_config host d ≡ (ok tt, d1)
      → d1 ≡ record d { config_file = d.temp_file; temp_file = none }
  unfolding replace_config
  replace_ok d d1 h = let (renamed, h2) = if_ok d.can_rename _ _ d d1 h in sym (ap (λ x. x.1) h2)

  dump_object :
      (fs : Fields doubles.Double) → (c : ℕ) × (s : Bytes) × (dump doubles (object fs) ≡ c ∷ s)
  unfolding dump
  dump_object fs = (_, _, refl)

module _ (host : Host) (laws : HostLaws host) where
  open host use {Seed, doubles}

  -- What is on the disk after `cfg` was saved.
  record Holds (cfg : EblConfig) (d : Disk Seed) : Type 0 where
    key : Bytes
    root : Value host
    rebuilds : Rebuilds host laws root cfg key
    has_key : HasKey host laws d key
    text_is : d.config_file ≡ some (dump doubles root)

  moved_key :
      (d d' : Disk Seed) (key : Bytes)
      → HasKey host laws d key
      → d'.key_file ≡ d.key_file
      → HasKey host laws d' key
  moved_key d d' key k e = record {
    file = k.file;
    stored = e ∙ k.stored;
    decoded = k.decoded;
    size = k.size;
  }

  store_ok :
      (cfg cfg' : EblConfig) (d d' : Disk Seed)
      → 44 ≤ d.space
      → store_config host cfg d ≡ (ok cfg', d')
      → (cfg ≡ cfg') × Holds cfg d'
  unfolding store_config
  store_ok cfg cfg' d d' hs h =
      let (key, d1, e1, f1) = >>=-ok host (load_or_create_machine_key host) _ d h in
      let (root, d2, e2, f2) = >>=-ok host (build_root host cfg key) _ d1 f1 in
      let (u, d3, e3, f3) = >>=-ok host (write_temp host (dump doubles root)) _ d2 f2 in
      let (v, d4, e4, f4) = >>=-ok host (replace_config host) _ d3 f3 in
      let (s, seeded) = build_root-OnlySeed host cfg key d1 in
      let m2 : d2 ≡ record d1 { seed = s } = ap (λ x. x.1) (sym e2) ∙ seeded in
      let m3 = write_temp_ok host (dump doubles root) d2 d3 e3 in
      let m4 = replace_ok host d3 d4 e4 in
      let m5 : d4 ≡ d' = ap (λ x. x.1) f4 in
      (
        ok_inj (ap (λ x. x.0) f4),
        record {
          key = key;
          root = root;
          rebuilds = build_root_ok host laws cfg key root d1 d2 e2;
          has_key = moved_key d1 d' key (load_key_ok host laws d d1 key hs e1) (
              ap (λ x. x.key_file) (sym m5 ∙ m4)
              ∙ ap (λ x. x.key_file) m3
              ∙ ap (λ x. x.key_file) m2);
          text_is = ap (λ x. x.config_file) (sym m5 ∙ m4) ∙ ap (λ x. x.temp_file) m3;
        },
      )

  load_text_lem :
      (s : Bytes) (root : Value host) (cfg : EblConfig) (d : Disk Seed)
      → ((c : ℕ) × (t : Bytes) × (s ≡ c ∷ t))
      → parse doubles s ≡ ok root
      → load_root host root d ≡ (ok cfg, d)
      → load_text host s d ≡ (ok (some cfg), d)
  unfolding load_text
  load_text_lem s root cfg d (c, t, e) hp hl =
      let p : parse doubles (c ∷ t) ≡ ok root = rw e at hp in rw (e, p, hl) refl

  load-Holds :
      (cfg : EblConfig) (d : Disk Seed)
      → IsStorable cfg
      → Holds cfg d
      → load_config host d ≡ (ok (some (reloaded cfg)), d)
  unfolding load_config file_text
  load-Holds cfg d s w =
      let b = w.rebuilds in
      let t = tokens_again host laws b.tokens w.key _ b.tokens_saved in
      let printable : IsPrintable doubles w.root =
        rw b.shape (saved-IsPrintable host laws cfg b.enc b.token b.tokens s t.1) in
      let nonempty : (c : ℕ) × (t : Bytes) × (dump doubles w.root ≡ c ∷ t) =
        rw b.shape (dump_object host _) in
      ap {A = Option Bytes} (λ o. load_text host (file_text host o) d) w.text_is
      ∙ load_text_lem (dump doubles w.root) w.root (reloaded cfg) d nonempty
          (parse-dump doubles laws.print_laws w.root printable)
          (rw b.shape (
            load_saved host laws cfg w.key b.enc b.token b.tokens d s w.has_key b.master
              b.token_saved b.tokens_saved))

  -- Where the libraries keep what they document, the ports are ints, the time is below 10 ^ 15, and a
  -- file can take the 44 bytes of a key: after a `saveConfig` that returns, `loadConfig` returns the
  -- configuration that was saved, with the secrets decrypted, but for the tokens that have no owner
  -- or are empty, and changes nothing on the disk.
  pub load_config-save_config :
      (cfg cfg' : EblConfig) (d d' : Disk Seed)
      → IsStorable cfg
      → 44 ≤ d.space
      → save_config host cfg d ≡ (ok cfg', d')
      → load_config host d' ≡ (ok (some (reloaded cfg')), d')
  unfolding save_config
  load_config-save_config cfg cfg' d d' s hs h =
      let (u, d1, e1, f1) = >>=-ok host (make_dir host) _ d h in
      let (master, d2, e2, f2) = >>=-ok host (ensure_master_key host cfg.master_key) _ d1 f1 in
      let same1 : d1.space ≡ d.space = ap (λ x. x.1.space) (sym e1) ∙ (make_dir-Keeps host d).1 in
      let same2 : d2.space ≡ d1.space =
        ap (λ x. x.1.space) (sym e2)
        ∙ (OnlySeed-Keeps host (ensure_master_key host cfg.master_key)
            (ensure_master_key-OnlySeed host cfg.master_key) d1).1 in
      let (same, w) = store_ok (record cfg { master_key = master }) cfg' d2 d' (omega arith) f2 in
      rw (← same) (
        load-Holds (record cfg { master_key = master }) d'
          (record {
            orchestrator_int = s.orchestrator_int;
            web_int = s.web_int;
            time_exact = s.time_exact;
          })
          w)
