-- ===== src/Config/Store.antt =====
-- `loadOrCreateMachineKey`, `loadConfig` and `saveConfig`, as steps on the files that they use.
use expo_builder_local.Prelude.{
  ℕ, Bytes, List, [], ◌∷◌, Bool, Option, none, some, text, codes, take, length, leb, ◌==◌,
  if◌then◌else◌,
}
use expo_builder_local.Prelude.Int.{pos}
use expo_builder_local.Exception.{Result, ok, err, stuck, runtime_error}
use expo_builder_local.Doubles.{Doubles}
use expo_builder_local.Base64.{encode, decode}
use expo_builder_local.Crypto.{Aes, aes_encrypt, aes_decrypt, iv_len}
use expo_builder_local.Json.Value.{Json, Items, string, array, nil, cons}
use expo_builder_local.Json.Access.{get, set, push_back, as_string, as_int}
use expo_builder_local.Json.Dump.{dump}
use expo_builder_local.Json.Parser.{parse}
use expo_builder_local.Config.Fields.{entry_value, plain_fields}
use expo_builder_local.Config.{ExpoTokenEntry, EblConfig, is_empty, is_kept, to_int32}

-- The libraries that the code calls.
pub record Host : Type 1 where
  pub doubles : Doubles
  pub aes : Aes
  pub Seed : Type 0
  -- RAND_bytes: so many bytes, none where it fails
  pub rand_bytes : ℕ → Seed → Option Bytes × Seed

-- The files of the configuration directory, and what the file system allows.
pub record Disk (Seed : Type 0) : Type 0 where
  pub config_file : Option Bytes
  pub temp_file : Option Bytes
  pub key_file : Option Bytes
  -- mkdir works or the directory exists
  pub can_make_dir : Bool
  pub can_open_key : Bool
  pub can_open_temp : Bool
  pub can_rename : Bool
  -- the bytes that a file can take
  pub space : ℕ
  pub seed : Seed

module _ (host : Host) where
  open host use {doubles, aes, Seed, rand_bytes}

  -- A step: it throws or returns, and leaves the disk in some state either way.
  abbrev pub Step : Type 0 → Type 0
  Step A = Disk Seed → Result A × Disk Seed

  abbrev pub and_then : {A B : Type 0} → Result A × Disk Seed → (A → Step B) → Result B × Disk Seed
  and_then (ok a, d) f = f a d
  and_then (err e, d) f = (err e, d)
  and_then (stuck, d) f = (stuck, d)

  infixl 5 ◌>>=◌
  abbrev pub ◌>>=◌ : {A B : Type 0} → Step A → (A → Step B) → Step B
  (m >>= f) d = and_then (m d) f

  abbrev pub ret : {A : Type 0} → A → Step A
  ret a d = (ok a, d)

  abbrev pub lift : {A : Type 0} → Result A → Step A
  lift r d = (r, d)

  -- RAND_bytes
  unfoldable pub draw : ℕ → Step (Option Bytes)
  draw n d = let (bytes, seed) = rand_bytes n d.seed in (ok bytes, record d { seed = seed })

  unfoldable pub key_drawn : Option Bytes → Result Bytes
  key_drawn none =
      err (runtime_error (text "Failed to generate a random encryption key (RAND_bytes)"))
  key_drawn (some key) = ok key

  -- `generateAesKey`
  unfoldable pub generate_aes_key : Step Bytes
  generate_aes_key = do bytes ← draw 32; lift (key_drawn bytes)

  -- `aesEncrypt`, which draws its IV
  unfoldable pub encrypt : Bytes → Bytes → Step Bytes
  encrypt plaintext key = do iv ← draw iv_len; lift (aes_encrypt aes iv plaintext key)

  -- std::ofstream with trunc, `<<` and close: nothing is checked behind the open.
  unfoldable pub write_key : Bytes → Step (Unit {0})
  write_key s d =
      if d.can_open_key
      then (ok tt, record d { key_file = some (take d.space s) })
      else (err (runtime_error (text "Could not write machine key")), d)

  unfoldable pub create_key : Step Bytes
  create_key = do key ← generate_aes_key; written ← write_key (encode key); ret key

  -- The key of a machine.key that decodes to 32 bytes.
  unfoldable pub key_or_create : Bytes → Step Bytes
  key_or_create decoded = if length decoded == 32 then ret decoded else create_key

  unfoldable pub key_from : Option Bytes → Step Bytes
  key_from none = create_key
  key_from (some s) = do decoded ← lift (decode s); key_or_create decoded

  unfoldable pub load_or_create_machine_key : Step Bytes
  load_or_create_machine_key d = key_from d.key_file d

  abbrev pub Value : Type 0
  Value = Json doubles.Double

  unfoldable pub decrypt_field : Bytes → Bytes → Result Bytes
  decrypt_field s key = if is_empty s then ok [] else aes_decrypt aes s key

  unfoldable pub keep_entry :
      Bytes → Bytes → Result Bytes → Result (List ExpoTokenEntry) → Result (List ExpoTokenEntry)
  keep_entry owner enc (ok token) (ok entries) =
      ok (record { owner = owner; token = token } ∷ entries)
  keep_entry owner enc (ok token) r = r
  keep_entry owner enc (err e) r = err e
  keep_entry owner enc stuck r = stuck

  -- the loop over tokensByOwner
  unfoldable pub load_entries : Items doubles.Double → Bytes → Result (List ExpoTokenEntry)
  load_entries nil key = ok []
  load_entries (cons entry entries) key =
      let owner = as_string [] (get (codes "owner") entry) in
      let enc = as_string [] (get (codes "tokenEnc") entry) in
      let rest = load_entries entries key in
      if is_empty owner
      then rest
      else if is_empty enc
      then rest
      else keep_entry owner enc (aes_decrypt aes enc key) rest

  unfoldable pub load_tokens : Value → Bytes → Result (List ExpoTokenEntry)
  load_tokens (array entries) key = load_entries entries key
  load_tokens _ key = ok []

  -- `loadConfig` behind the parse
  unfoldable pub load_root : Value → Step EblConfig
  load_root root = do
    key ← load_or_create_machine_key
    master ← lift (decrypt_field (as_string [] (get (codes "masterKeyEnc") root)) key)
    token ← lift (decrypt_field (as_string [] (get (codes "expoTokenEnc") root)) key)
    tokens ← lift (load_tokens (get (codes "expoTokensByOwner") root) key)
    ret (record {
      projects_root = as_string [] (get (codes "projectsRoot") root);
      orchestrator_port =
          to_int32 (as_int doubles (pos 4001) (get (codes "orchestratorPort") root));
      web_port = to_int32 (as_int doubles (pos 3000) (get (codes "webPort") root));
      master_key = master;
      expo_token = token;
      expo_tokens_by_owner = tokens;
      setup_completed_at = as_int doubles (pos 0) (get (codes "setupCompletedAt") root);
    })

  -- `readFile`, which returns an empty text where there is no file
  unfoldable pub file_text : Option Bytes → Bytes
  file_text none = []
  file_text (some s) = s

  unfoldable pub load_text : Bytes → Step (Option EblConfig)
  load_text [] = ret none
  load_text (c ∷ s) = do root ← lift (parse doubles (c ∷ s)); cfg ← load_root root; ret (some cfg)

  unfoldable pub load_config : Step (Option EblConfig)
  load_config d = load_text (file_text d.config_file) d

  unfoldable pub make_dir : Step (Unit {0})
  make_dir d =
      if d.can_make_dir
      then (ok tt, d)
      else (err (runtime_error (text "Could not create config directory")), d)

  -- The master key of the configuration, generated where there is none.
  unfoldable pub ensure_master_key : Bytes → Step Bytes
  ensure_master_key [] = do generated ← generate_aes_key; ret (encode generated)
  ensure_master_key (c ∷ s) = ret (c ∷ s)

  -- the loop over expoTokensByOwner, with the array so far
  unfoldable pub save_entries : List ExpoTokenEntry → Bytes → Value → Step Value
  save_entries [] key tokens = ret tokens
  save_entries (entry ∷ entries) key tokens =
      let skipped = save_entries entries key tokens in
      let kept = do
        enc ← encrypt entry.token key
        obj ← lift (entry_value doubles entry.owner enc)
        tokens2 ← lift (push_back obj tokens)
        save_entries entries key tokens2
      in if is_kept entry then kept else skipped

  unfoldable pub set_token : Bytes → Bytes → Value → Step Value
  set_token [] key root = ret root
  set_token (c ∷ s) key root = do
    enc ← encrypt (c ∷ s) key
    lift (set (codes "expoTokenEnc") (string enc) root)

  -- The JSON of a configuration.
  unfoldable pub build_root : EblConfig → Bytes → Step Value
  build_root cfg key = do
    head ← lift (plain_fields doubles cfg)
    enc ← encrypt cfg.master_key key
    r5 ← lift (set (codes "masterKeyEnc") (string enc) head)
    r6 ← set_token cfg.expo_token key r5
    tokens ← save_entries cfg.expo_tokens_by_owner key (array nil)
    lift (set (codes "expoTokensByOwner") tokens r6)

  -- The temporary file, whose flush fails if it does not fit.
  unfoldable pub write_temp : Bytes → Step (Unit {0})
  write_temp s d =
      let written = record d { temp_file = some (take d.space s) } in
      if d.can_open_temp
      then (if leb (length s) d.space
          then (ok tt, written)
          else (err (runtime_error (text "Failed writing config (disk full?)")), written))
      else (err (runtime_error (text "Could not write config")), d)

  -- `atomicReplace`
  unfoldable pub replace_config : Step (Unit {0})
  replace_config d =
      if d.can_rename
      then (ok tt, record d { config_file = d.temp_file; temp_file = none })
      else (err (runtime_error (text "Could not save config")), d)

  -- `saveConfig` behind the master key: its configuration has one.
  unfoldable pub store_config : EblConfig → Step EblConfig
  store_config cfg = do
    key ← load_or_create_machine_key
    root ← build_root cfg key
    written ← write_temp (dump doubles root)
    replaced ← replace_config
    ret cfg

  -- `saveConfig` changes the master key of its argument: here it returns the configuration.
  unfoldable pub save_config : EblConfig → Step EblConfig
  save_config cfg = do
    made ← make_dir
    master ← ensure_master_key cfg.master_key
    store_config (record cfg { master_key = master })
