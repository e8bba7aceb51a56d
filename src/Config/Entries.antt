-- ===== src/Config/Entries.antt =====
-- The tokens of `expoTokensByOwner`, saved and loaded.
use expo_builder_local.Prelude.{
  Bytes, List, [], ◌∷◌, ◌++◌, append_assoc, append-nil, true, false, ◌≡◌, refl, sym, ◌∙◌, ap,
  Bool-cases, inl, inr, arith, codes,
}
use expo_builder_local.Exception.{Result, ok, err, stuck, ok_inj}
use expo_builder_local.Crypto.{aes_decrypt}
use expo_builder_local.Json.Value.{Items, string, array, object, nil, cons, field, end}
use expo_builder_local.Json.Access.{get, set, lookup, push_item, push_back, as_string}
use expo_builder_local.Json.Parser.Steps.{IsPrintable, ItemsPrintable}
use expo_builder_local.Config.{ExpoTokenEntry, is_empty, is_kept, kept}
use expo_builder_local.Config.Fields.{entry_value}
use expo_builder_local.Config.Store.{
  Host, Disk, lift, encrypt, keep_entry, load_entries, save_entries, Value,
}
use expo_builder_local.Config.Steps.{>>=-ok, lift_ok}
use expo_builder_local.Config.Secrets.{HostLaws, encrypt_ok}

module _ (host : Host) (laws : HostLaws host) where
  open host use {Seed, doubles, aes}

  -- an entry of the array, as `saveConfig` writes it
  abbrev entry_object : Bytes → Bytes → Value host
  entry_object owner enc =
      object (field (codes "owner") (string owner) (field (codes "tokenEnc") (string enc) end))

  entry_value_lem :
      (owner enc : Bytes) → entry_value doubles owner enc ≡ ok (entry_object owner enc)
  unfolding entry_value set
  entry_value_lem owner enc = refl

  entry_owner :
      (owner enc : Bytes) → as_string [] (get (codes "owner") (entry_object owner enc)) ≡ owner
  unfolding as_string get
  entry_owner owner enc = refl

  entry_enc :
      (owner enc : Bytes) → as_string [] (get (codes "tokenEnc") (entry_object owner enc)) ≡ enc
  unfolding as_string get
  entry_enc owner enc = refl

  entry_IsPrintable : (owner enc : Bytes) → IsPrintable doubles (entry_object owner enc)
  unfolding lookup
  entry_IsPrintable owner enc = (refl, tt, (refl, tt, tt))

  push_array :
      (v : Value host) (xs : Items doubles.Double)
      → push_back v (array xs) ≡ ok (array (push_item v xs))
  unfolding push_back
  push_array v xs = refl

  ItemsPrintable-push_item :
      (v : Value host) (xs : Items doubles.Double)
      → IsPrintable doubles v
      → ItemsPrintable doubles xs
      → ItemsPrintable doubles (push_item v xs)
  unfolding push_item
  ItemsPrintable-push_item v nil hv h = (hv, tt)
  ItemsPrintable-push_item v (cons x xs) hv (hx, h) = (hx, ItemsPrintable-push_item v xs hv h)

  keep_entry_push :
      (owner enc : Bytes) (token : Result Bytes) (r r' : Result (List ExpoTokenEntry))
      (ts : List ExpoTokenEntry) (entry : ExpoTokenEntry)
      → ((us : List ExpoTokenEntry) → r ≡ ok us → r' ≡ ok (us ++ entry ∷ []))
      → keep_entry host owner enc token r ≡ ok ts
      → keep_entry host owner enc token r' ≡ ok (ts ++ entry ∷ [])
  unfolding keep_entry
  keep_entry_push owner enc (ok token) (ok us) r' ts entry ih h =
      let e : record { owner = owner; token = token } ∷ us ≡ ts = cc in rw (ih us refl, ← e) refl
  keep_entry_push owner enc (ok token) (err x) r' ts entry ih h = cc
  keep_entry_push owner enc (ok token) stuck r' ts entry ih h = cc
  keep_entry_push owner enc (err x) r r' ts entry ih h = cc
  keep_entry_push owner enc stuck r r' ts entry ih h = cc

  load_last :
      (owner enc token key : Bytes)
      → is_empty owner ≡ false
      → is_empty enc ≡ false
      → aes_decrypt aes enc key ≡ ok token
      → load_entries host (cons (entry_object owner enc) nil) key
        ≡ ok (record { owner = owner; token = token } ∷ [])
  unfolding load_entries keep_entry
  load_last owner enc token key ho he hd =
      rw (entry_owner owner enc, entry_enc owner enc, ho, he, hd) refl

  load_push :
      (owner enc token key : Bytes) (xs : Items doubles.Double) (ts : List ExpoTokenEntry)
      → is_empty owner ≡ false
      → is_empty enc ≡ false
      → aes_decrypt aes enc key ≡ ok token
      → load_entries host xs key ≡ ok ts
      → load_entries host (push_item (entry_object owner enc) xs) key
        ≡ ok (ts ++ record { owner = owner; token = token } ∷ [])
  unfolding load_entries push_item
  load_push owner enc token key nil ts ho he hd h =
      let e : [] ≡ ts = cc in rw (← e) (load_last owner enc token key ho he hd)
  load_push owner enc token key (cons x xs) ts ho he hd h =
      elim (Bool-cases (is_empty (as_string [] (get (codes "owner") x)))) [
        | inl a ↦ rw a (load_push owner enc token key xs ts ho he hd (rw a at h))
        | inr a ↦ elim (Bool-cases (is_empty (as_string [] (get (codes "tokenEnc") x)))) [
          | inl b ↦ rw (a, b) (load_push owner enc token key xs ts ho he hd (rw (a, b) at h))
          | inr b ↦
              rw (a, b)
                (keep_entry_push _ _ _ (load_entries host xs key) _ ts _
                  (λ us. load_push owner enc token key xs us ho he hd) (rw (a, b) at h))
        ]
      ]

  is_kept_owner : (entry : ExpoTokenEntry) → is_kept entry ≡ true → is_empty entry.owner ≡ false
  unfolding is_kept
  is_kept_owner entry h = ground arith

  kept_here :
      (entry : ExpoTokenEntry) (entries : List ExpoTokenEntry)
      → is_kept entry ≡ true
      → kept (entry ∷ entries) ≡ entry ∷ kept entries
  unfolding kept
  kept_here entry entries h = rw h refl

  kept_skip :
      (entry : ExpoTokenEntry) (entries : List ExpoTokenEntry)
      → is_kept entry ≡ false
      → kept (entry ∷ entries) ≡ kept entries
  unfolding kept
  kept_skip entry entries h = rw h refl

  -- An array that prints and that loads as given entries.
  abbrev pub Loads : Value host → Bytes → List ExpoTokenEntry → Type 0
  Loads tokens key ts =
      (ys : Items doubles.Double) × (tokens ≡ array ys)
      × (load_entries host ys key ≡ ok ts)
      × ItemsPrintable doubles ys

  pushed :
      (owner enc : Bytes) (xs : Items doubles.Double) (start obj tokens : Value host)
      → start ≡ array xs
      → entry_value doubles owner enc ≡ ok obj
      → push_back obj start ≡ ok tokens
      → tokens ≡ array (push_item (entry_object owner enc) xs)
  pushed owner enc xs start obj tokens hx ho ht =
      let o : obj ≡ entry_object owner enc = ok_inj (sym ho ∙ entry_value_lem owner enc) in
      ok_inj (sym ht ∙ rw (o, hx) (push_array (entry_object owner enc) xs))

  -- The entries that are saved load again, but for those without an owner or a token.
  pub save_entries_ok :
      (entries : List ExpoTokenEntry) (key : Bytes) (start : Value host) (xs : Items doubles.Double)
      (ts : List ExpoTokenEntry) (d d' : Disk Seed) (tokens : Value host)
      → start ≡ array xs
      → load_entries host xs key ≡ ok ts
      → ItemsPrintable doubles xs
      → save_entries host entries key start d ≡ (ok tokens, d')
      → Loads tokens key (ts ++ kept entries)
  unfolding save_entries
  save_entries_ok [] key start xs ts d d' tokens hx h hp hs =
      (xs, sym (ok_inj (ap (λ x. x.0) hs)) ∙ hx, unfold kept in rw append-nil h, hp)
  save_entries_ok (entry ∷ entries) key start xs ts d d' tokens hx h hp hs =
      elim (Bool-cases (is_kept entry)) [
        | inr e ↦
            rw (kept_skip entry entries e)
              (save_entries_ok entries key start xs ts d d' tokens hx h hp (rw e at hs))
        | inl e ↦
            let (enc, d1, e1, e2) = >>=-ok host (encrypt host entry.token key) _ d (rw e at hs) in
            let (obj, d2, e3, e4) =
              >>=-ok host (lift host (entry_value doubles entry.owner enc)) _ d1 e2 in
            let (tokens2, d3, e5, e6) = >>=-ok host (lift host (push_back obj start)) _ d2 e4 in
            let (hd, hn) = encrypt_ok host laws entry.token key enc d d1 e1 in
            rw (kept_here entry entries e, ← append_assoc ts (entry ∷ []) (kept entries))
              (save_entries_ok entries key tokens2 (push_item (entry_object entry.owner enc) xs)
                (ts ++ entry ∷ []) d3 d' tokens
                (pushed entry.owner enc xs start obj tokens2 hx (lift_ok host _ obj d1 d2 e3).0
                  (lift_ok host _ tokens2 d2 d3 e5).0)
                (load_push entry.owner enc entry.token key xs ts (is_kept_owner entry e) hn hd h)
                (ItemsPrintable-push_item _ xs (entry_IsPrintable entry.owner enc) hp) e6)
      ]
