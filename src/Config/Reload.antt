-- ===== src/Config/Reload.antt =====
-- `loadConfig` on the object that `saveConfig` writes.
use expo_builder_local.Prelude.{
  Bytes, List, [], false, Option, none, some, ◌≡◌, refl, sym, ap, codes,
}
use expo_builder_local.Prelude.Int.{pos}
use expo_builder_local.Exception.{ok}
use expo_builder_local.Crypto.{aes_decrypt}
use expo_builder_local.Json.Access.{get, lookup, as_string, as_int}
use expo_builder_local.Json.Parser.Steps.{IsPrintable}
use expo_builder_local.Config.{ExpoTokenEntry, EblConfig, is_empty, kept, to_int32}
use expo_builder_local.Config.Store.{Host, Disk, decrypt_field, load_tokens, Value, load_root}
use expo_builder_local.Config.Secrets.{HostLaws, HasKey, load_key_again}
use expo_builder_local.Config.Entries.{Loads}
use expo_builder_local.Config.Rebuild.{IsStorable, to_int32_same, fits_wider, saved, TokenSaved}

-- The configuration that is loaded after `cfg` was saved: entries without an owner or a token are
-- gone.
unfoldable pub reloaded : EblConfig → EblConfig
reloaded cfg = record cfg { expo_tokens_by_owner = kept cfg.expo_tokens_by_owner }

module _ (host : Host) (laws : HostLaws host) where
  open host use {Seed, doubles, aes}

  pub saved-IsPrintable :
      (cfg : EblConfig) (enc : Bytes) (o : Option Bytes) (tokens : Value host)
      → IsStorable cfg
      → IsPrintable doubles tokens
      → IsPrintable doubles (saved host laws cfg enc o tokens)
  unfolding lookup
  saved-IsPrintable cfg enc none tokens s h = (
    refl,
    tt,
    (
      refl,
      laws.readable_int _ (fits_wider _ s.orchestrator_int),
      (
        refl,
        laws.readable_int _ (fits_wider _ s.web_int),
        (refl, laws.readable_int _ s.time_exact, (refl, tt, (refl, h, tt))),
      ),
    ),
  )
  saved-IsPrintable cfg enc (some te) tokens s h = (
    refl,
    tt,
    (
      refl,
      laws.readable_int _ (fits_wider _ s.orchestrator_int),
      (
        refl,
        laws.readable_int _ (fits_wider _ s.web_int),
        (refl, laws.readable_int _ s.time_exact, (refl, tt, (refl, tt, (refl, h, tt)))),
      ),
    ),
  )

  decrypt_again :
      (enc plain key : Bytes)
      → (aes_decrypt aes enc key ≡ ok plain) × (is_empty enc ≡ false)
      → decrypt_field host enc key ≡ ok plain
  unfolding decrypt_field
  decrypt_again enc plain key (h, e) = rw e h

  token_again :
      (cfg : EblConfig) (enc : Bytes) (o : Option Bytes) (tokens : Value host) (key : Bytes)
      → TokenSaved host laws o cfg.expo_token key
      → decrypt_field host
          (as_string [] (get (codes "expoTokenEnc") (saved host laws cfg enc o tokens)))
          key
        ≡ ok cfg.expo_token
  unfolding get lookup as_string
  token_again cfg enc none tokens key h = unfold decrypt_field is_empty in ap ok (sym h)
  token_again cfg enc (some te) tokens key h = decrypt_again te cfg.expo_token key h

  tokens_get :
      (cfg : EblConfig) (enc : Bytes) (o : Option Bytes) (tokens : Value host)
      → get (codes "expoTokensByOwner") (saved host laws cfg enc o tokens) ≡ tokens
  unfolding get
  tokens_get cfg enc none tokens = refl
  tokens_get cfg enc (some te) tokens = refl

  pub tokens_again :
      (tokens : Value host) (key : Bytes) (ts : List ExpoTokenEntry)
      → Loads host laws tokens key ts
      → (load_tokens host tokens key ≡ ok ts) × IsPrintable doubles tokens
  unfolding load_tokens
  tokens_again tokens key ts (ys, e, l, p) = rw e (l, p)

  pub load_saved :
      (cfg : EblConfig) (key enc : Bytes) (o : Option Bytes) (tokens : Value host) (d : Disk Seed)
      → IsStorable cfg
      → HasKey host laws d key
      → (aes_decrypt aes enc key ≡ ok cfg.master_key) × (is_empty enc ≡ false)
      → TokenSaved host laws o cfg.expo_token key
      → Loads host laws tokens key (kept cfg.expo_tokens_by_owner)
      → load_root host (saved host laws cfg enc o tokens) d ≡ (ok (reloaded cfg), d)
  unfolding load_root reloaded
  load_saved cfg key enc o tokens d s k m t l =
      rw
        (
          load_key_again host laws d key k,
          master,
          token_again cfg enc o tokens key t,
          tokens_get cfg enc o tokens,
          (tokens_again tokens key _ l).0,
          orchestrator,
          web,
          time,
          root_dir,
        )
        refl
    where
      master :
          decrypt_field host
            (as_string [] (get (codes "masterKeyEnc") (saved host laws cfg enc o tokens)))
            key
          ≡ ok cfg.master_key
      master = unfold get lookup as_string in decrypt_again enc cfg.master_key key m

      orchestrator :
          to_int32 (
            as_int doubles
              (pos 4001)
              (get (codes "orchestratorPort") (saved host laws cfg enc o tokens)))
          ≡ cfg.orchestrator_port
      orchestrator =
          unfold get lookup as_int in
          rw (laws.to_int-of_int _ (fits_wider _ s.orchestrator_int))
            (to_int32_same _ s.orchestrator_int)

      web :
          to_int32
            (as_int doubles (pos 3000) (get (codes "webPort") (saved host laws cfg enc o tokens)))
          ≡ cfg.web_port
      web =
          unfold get lookup as_int in
          rw (laws.to_int-of_int _ (fits_wider _ s.web_int)) (to_int32_same _ s.web_int)

      time :
          as_int doubles (pos 0) (get (codes "setupCompletedAt") (saved host laws cfg enc o tokens))
          ≡ cfg.setup_completed_at
      time = unfold get lookup as_int in laws.to_int-of_int _ s.time_exact

      root_dir :
          as_string [] (get (codes "projectsRoot") (saved host laws cfg enc o tokens))
          ≡ cfg.projects_root
      root_dir = unfold get lookup as_string in refl
