-- ===== src/Config/Tests.antt =====
-- A configuration saved and loaded, and the theorems at work on it.
use expo_builder_local.Prelude.{
  ℕ, zero, suc, Bytes, [], ◌∷◌, true, none, some, codes, replicate, length, ◌≡◌, refl, ap, All,
  IsByte, arith,
}
use expo_builder_local.Prelude.Int.{ℤ, pos, negsuc}
use expo_builder_local.Exception.{ok}
use expo_builder_local.Doubles.{is_negative_zero}
use expo_builder_local.Decimal.{fits, print_int}
use expo_builder_local.Base64.{encode}
use expo_builder_local.Json.Integers.{ints, ints-PrintLaws}
use expo_builder_local.Json.Dump.{dump}
use expo_builder_local.Json.Parser.Numbers.{IsReadable}
use expo_builder_local.Json.Access.{set, push_back}
use expo_builder_local.Crypto.{aes_encrypt}
use expo_builder_local.Crypto.Plain.{plain_cipher, plain_cipher-AesLaws}
use expo_builder_local.Config.{EblConfig, is_kept, is_empty}
use expo_builder_local.Config.Fields.{entry_value, plain_fields}
use expo_builder_local.Config.Store.{
  Host, Disk, draw, key_drawn, generate_aes_key, write_key, create_key, key_from,
  load_or_create_machine_key, encrypt, make_dir, ensure_master_key, save_entries, set_token,
  build_root, write_temp, replace_config, store_config, save_config, load_config,
}
use expo_builder_local.Config.Secrets.{HostLaws}
use expo_builder_local.Config.Atomic.{Replaced, save_config-Replaced}
use expo_builder_local.Config.Rebuild.{IsStorable}
use expo_builder_local.Config.Reload.{reloaded}
use expo_builder_local.Config.RoundTrip.{load_config-save_config}

-- Random bytes that are all 7.
abbrev machine : Host
machine = record {
  doubles = ints;
  aes = plain_cipher;
  Seed = Unit;
  rand_bytes = λ n s. (some (replicate n 7), tt);
}

sevens : (n : ℕ) → (length {A = ℕ} (replicate n 7) ≡ n) × All IsByte (replicate n 7)
sevens zero = (refl, tt)
sevens (suc n) = let (l, h) = sevens n in (omega arith, (omega arith, h))

some_inj : (s t : Bytes) → some s ≡ some t → s ≡ t
some_inj s t h = cc

readable : (z : ℤ) → IsReadable ints z
unfolding is_negative_zero
readable (pos n) = (refl, ground arith, refl)
readable (negsuc n) = (refl, ground arith, refl)

machine-HostLaws : HostLaws machine
machine-HostLaws = record {
  print_laws = ints-PrintLaws;
  aes_laws = plain_cipher-AesLaws;
  random_bytes = λ n s bytes h. rw (← some_inj _ bytes h) (sevens n);
  readable_int = λ z h. readable z;
  to_int-of_int = λ z h. refl;
}

abbrev cfg : EblConfig
cfg = record {
  projects_root = codes "/p";
  orchestrator_port = pos 4001;
  web_port = pos 80;
  master_key = codes "m";
  expo_token = [];
  expo_tokens_by_owner =
      record { owner = codes "o"; token = codes "t" }
      ∷ record { owner = []; token = codes "u" }
      ∷ [];
  setup_completed_at = pos 5;
}

abbrev empty_disk : Disk Unit
empty_disk = record {
  config_file = none;
  temp_file = none;
  key_file = none;
  can_make_dir = true;
  can_open_key = true;
  can_open_temp = true;
  can_rename = true;
  space = 1000;
  seed = tt;
}

save_returns : (save_config machine cfg empty_disk).0 ≡ ok cfg
unfolding save_config make_dir ensure_master_key store_config load_or_create_machine_key key_from
    create_key generate_aes_key draw key_drawn write_key encode build_root plain_fields set encrypt
    aes_encrypt set_token save_entries is_kept is_empty entry_value push_back write_temp dump
    print_int replace_config
save_returns = refl

cfg-IsStorable : IsStorable cfg
cfg-IsStorable =
    unfold fits in record { orchestrator_int = refl; web_int = refl; time_exact = refl }

save_config-Replaced_example : Replaced machine empty_disk (save_config machine cfg empty_disk)
save_config-Replaced_example = save_config-Replaced machine cfg empty_disk

load_config-save_config_example :
    load_config machine (save_config machine cfg empty_disk).1
    ≡ (ok (some (reloaded cfg)), (save_config machine cfg empty_disk).1)
load_config-save_config_example =
    load_config-save_config machine machine-HostLaws cfg cfg empty_disk
      (save_config machine cfg empty_disk).1 cfg-IsStorable (omega arith)
      (ap (λ r. (r, (save_config machine cfg empty_disk).1)) save_returns)
