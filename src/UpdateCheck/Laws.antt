-- ===== src/UpdateCheck/Laws.antt =====
-- What `checkForNewerVersion` reports is newer, and a check is not repeated within a day.
use expo_builder_local.Prelude.{
  ◌+◌, ◌≤◌, Bytes, Bool, true, false, Option, some, ◌≡◌, refl, sym, ◌∙◌, ap, codes, Bool-cases, inl,
  inr, arith,
}
use expo_builder_local.Prelude.Int.{ℤ, pos_part, neg_part}
use expo_builder_local.Exception.{Result, ok, err, stuck, ok_inj}
use expo_builder_local.Doubles.{Doubles, PrintLaws}
use expo_builder_local.Json.Value.{Json, number, string, object, field, end}
use expo_builder_local.Json.Access.{get, set, lookup, as_string, as_int}
use expo_builder_local.Json.Parser.Numbers.{IsReadable}
use expo_builder_local.Json.Parser.Steps.{IsPrintable}
use expo_builder_local.Json.Parser.RoundTrip.{parse-dump}
use expo_builder_local.Config.{is_empty}
use expo_builder_local.Version.{is_version_newer}
use expo_builder_local.UpdateCheck.{
  Cache, Reply, catch_json, is_stale, newest, fetch_latest_tag, cache_of, read_cache, cache_json,
  written, write_cache, latest, Checked, after_fetch, with_cache, check_for_newer_version,
}

newest_newer : (v current w : Bytes) → newest v current ≡ some w → is_version_newer w current ≡ true
unfolding newest
newest_newer v current w h = elim (Bool-cases (is_empty v)) [
  | inl e ↦ absurd (cc (rw e at h))
  | inr e ↦ elim (Bool-cases (is_version_newer v current)) [
    | inr f ↦ absurd (cc (rw (e, f) at h))
    | inl f ↦ let q : some v ≡ some w = rw (e, f) at h in let p : v ≡ w = cc in rw (← p) f
  ]
]

module _ (fp : Doubles) where
  open fp use {Double}

  after_fetch_newer :
      (can_write : Bool) (now : ℤ) (current : Bytes) (cache : Cache) (file file' : Option Bytes)
      (r : Result (Option Bytes)) (w : Bytes)
      → after_fetch fp can_write now current cache file r ≡ (ok (some w), file')
      → is_version_newer w current ≡ true
  unfolding after_fetch
  after_fetch_newer can_write now current cache file file' (ok fetched) w h =
      newest_newer _ current w (ok_inj (ap (λ x. x.0) h))
  after_fetch_newer can_write now current cache file file' (err e) w h = cc (ap (λ x. x.0) h)
  after_fetch_newer can_write now current cache file file' stuck w h = cc (ap (λ x. x.0) h)

  with_cache_newer :
      (reply : Option Reply) (can_write : Bool) (now : ℤ) (current : Bytes)
      (file file' : Option Bytes) (r : Result Cache) (w : Bytes)
      → with_cache fp reply can_write now current file r ≡ (ok (some w), file')
      → is_version_newer w current ≡ true
  unfolding with_cache
  with_cache_newer reply can_write now current file file' (ok cache) w h =
      elim (Bool-cases (is_stale now cache.last_checked_at)) [
        | inl e ↦
            after_fetch_newer can_write now current cache file file' (fetch_latest_tag fp reply) w
              (rw e at h)
        | inr e ↦ newest_newer _ current w (ok_inj (ap (λ x. x.0) (rw e at h)))
      ]
  with_cache_newer reply can_write now current file file' (err e) w h = cc (ap (λ x. x.0) h)
  with_cache_newer reply can_write now current file file' stuck w h = cc (ap (λ x. x.0) h)

  -- A version that `checkForNewerVersion` returns is newer than the current one, whatever the cache
  -- file and the reply hold.
  pub check_for_newer_version_newer :
      (has_path : Bool) (reply : Option Reply) (can_write : Bool) (now : ℤ) (current : Bytes)
      (file file' : Option Bytes) (w : Bytes)
      → check_for_newer_version fp has_path reply can_write now current file ≡ (ok (some w), file')
      → is_version_newer w current ≡ true
  unfolding check_for_newer_version
  check_for_newer_version_newer true reply can_write now current file file' w h =
      with_cache_newer reply can_write now current file file' (read_cache fp file) w h
  check_for_newer_version_newer false reply can_write now current file file' w h =
      cc (ok_inj (ap (λ x. x.0) h))

  abbrev cache_object : Cache → Json Double
  cache_object cache = object (
      field (codes "lastCheckedAt") (number (fp.of_int cache.last_checked_at))
        (field (codes "latestVersion") (string cache.latest_version) end))

  cache_json_lem : (cache : Cache) → cache_json fp cache ≡ ok (cache_object cache)
  unfolding cache_json set
  cache_json_lem cache = refl

  cache_of_lem :
      (cache : Cache)
      → fp.to_int (fp.of_int cache.last_checked_at) ≡ cache.last_checked_at
      → cache_of fp (cache_object cache) ≡ cache
  unfolding cache_of get as_int as_string
  cache_of_lem cache h =
      ap {A = ℤ} {B = Cache}
        (λ z. record { last_checked_at = z; latest_version = cache.latest_version }) h

  cache_IsPrintable :
      (cache : Cache)
      → IsReadable fp (fp.of_int cache.last_checked_at)
      → IsPrintable fp (cache_object cache)
  unfolding lookup
  cache_IsPrintable cache h = (refl, h, (refl, tt, tt))

  -- A cache that is written is read back.
  read_cache-write_cache :
      (laws : PrintLaws fp) (cache : Cache) (file : Option Bytes)
      → IsReadable fp (fp.of_int cache.last_checked_at)
      → fp.to_int (fp.of_int cache.last_checked_at) ≡ cache.last_checked_at
      → read_cache fp (write_cache fp true cache file) ≡ ok cache
  unfolding write_cache read_cache written
  read_cache-write_cache laws cache file hr hi =
      rw
        (cache_json_lem cache, parse-dump fp laws (cache_object cache) (cache_IsPrintable cache hr))
        (unfold catch_json in ap ok (cache_of_lem cache hi))

  stale_then :
      (now now' : ℤ)
      → pos_part now' + neg_part now ≤ pos_part now + neg_part now' + 86400
      → is_stale now' now ≡ false
  unfolding is_stale
  stale_then now now' h = ground arith

  fresh_again :
      (reply : Option Reply) (can_write : Bool) (now : ℤ) (current : Bytes) (file : Option Bytes)
      (cache : Cache)
      → read_cache fp file ≡ ok cache
      → is_stale now cache.last_checked_at ≡ false
      → check_for_newer_version fp true reply can_write now current file
        ≡ (ok (newest cache.latest_version current), file)
  unfolding check_for_newer_version with_cache
  fresh_again reply can_write now current file cache h s = rw h (rw s refl)

  fetched_again :
      (laws : PrintLaws fp) (reply' : Option Reply) (can_write' : Bool) (now now' : ℤ)
      (current : Bytes) (cache : Cache) (file file' : Option Bytes) (r : Result (Option Bytes))
      (answer : Option Bytes)
      → IsReadable fp (fp.of_int now)
      → fp.to_int (fp.of_int now) ≡ now
      → pos_part now' + neg_part now ≤ pos_part now + neg_part now' + 86400
      → after_fetch fp true now current cache file r ≡ (ok answer, file')
      → check_for_newer_version fp true reply' can_write' now' current file' ≡ (ok answer, file')
  unfolding after_fetch
  fetched_again laws reply' can_write' now now' current cache file file' (ok fetched) answer hr hi
        hn h =
      let cache2 : Cache = record {
        last_checked_at = now;
        latest_version = latest fp fetched cache.latest_version;
      } in
      let same : write_cache fp true cache2 file ≡ file' = ap (λ x. x.1) h in
      let ans : newest cache2.latest_version current ≡ answer = ok_inj (ap (λ x. x.0) h) in
      fresh_again reply' can_write' now' current file' cache2
        (ap (read_cache fp) (sym same) ∙ read_cache-write_cache laws cache2 file hr hi)
        (stale_then now now' hn)
      ∙ ap {A = Option Bytes} {B = Checked fp} (λ a. (ok a, file')) ans
  fetched_again laws reply' can_write' now now' current cache file file' (err e) answer hr hi hn h =
      absurd (cc (ap (λ x. x.0) h))
  fetched_again laws reply' can_write' now now' current cache file file' stuck answer hr hi hn h =
      absurd (cc (ap (λ x. x.0) h))

  -- After a check that found the cache stale, returned and could write the cache, every check in the
  -- 24 hours behind it returns the same answer and leaves the cache file alone, whatever the reply to
  -- a request would be, where doubles keep the laws of printing and hold the time exactly.
  pub check_for_newer_version_again :
      (laws : PrintLaws fp) (reply reply' : Option Reply) (can_write' : Bool) (now now' : ℤ)
      (current : Bytes) (cache : Cache) (file file' : Option Bytes) (answer : Option Bytes)
      → IsReadable fp (fp.of_int now)
      → fp.to_int (fp.of_int now) ≡ now
      → read_cache fp file ≡ ok cache
      → is_stale now cache.last_checked_at ≡ true
      → pos_part now' + neg_part now ≤ pos_part now + neg_part now' + 86400
      → check_for_newer_version fp true reply true now current file ≡ (ok answer, file')
      → check_for_newer_version fp true reply' can_write' now' current file' ≡ (ok answer, file')
  check_for_newer_version_again laws reply reply' can_write' now now' current cache file file'
        answer hr hi hc hs hn h =
      fetched_again laws reply' can_write' now now' current cache file file'
        (fetch_latest_tag fp reply) answer hr hi hn (sym stale_check ∙ h)
    where
      stale_check :
          check_for_newer_version fp true reply true now current file
          ≡ after_fetch fp true now current cache file (fetch_latest_tag fp reply)
      stale_check = unfold check_for_newer_version with_cache in rw hc (rw hs refl)
