-- ===== src/UpdateCheck.antt =====
-- cli-cpp-legacy/src/update_check.cpp: `checkForNewerVersion`. The reply of libcurl, the clock and
-- whether the cache file can be written are arguments; a cache file that opens takes its whole text.
pub mod Laws
mod Tests
use expo_builder_local.Prelude.{
  ℕ, ◌+◌, Bytes, [], Bool, true, false, not, ◌&&◌, Option, none, some, codes, ltb, ◌==◌,
  if◌then◌else◌,
}
use expo_builder_local.Prelude.Int.{ℤ, pos, pos_part, neg_part}
use expo_builder_local.Exception.{Result, ok, err, stuck, json_error, ◌>>=◌}
use expo_builder_local.Doubles.{Doubles}
use expo_builder_local.Json.Value.{Json, number, string, object, end}
use expo_builder_local.Json.Access.{get, set, as_string, as_int}
use expo_builder_local.Json.Dump.{dump}
use expo_builder_local.Json.Parser.{parse}
use expo_builder_local.Config.{is_empty}
use expo_builder_local.Version.{is_version_newer}

abbrev pub cache_max_age_seconds : ℕ
cache_max_age_seconds = 86400

pub record Cache : Type 0 where
  pub last_checked_at : ℤ
  pub latest_version : Bytes

abbrev pub no_cache : Cache
no_cache = record { last_checked_at = pos 0; latest_version = [] }

-- What curl_easy_perform comes to: CURLE_OK or not, the status, the body.
pub record Reply : Type 0 where
  pub performed : Bool
  pub http_code : ℕ
  pub body : Bytes

-- `catch (const JsonError&)`: other exceptions pass.
unfoldable pub catch_json {ℓ} : {A : Type ℓ} → A → Result A → Result A
catch_json fallback (ok a) = ok a
catch_json fallback (err (json_error m)) = ok fallback
catch_json fallback (err e) = err e
catch_json fallback stuck = stuck

-- now - last > kCacheMaxAgeSeconds
unfoldable pub is_stale : ℤ → ℤ → Bool
is_stale now last =
    ltb (pos_part last + neg_part now + cache_max_age_seconds) (pos_part now + neg_part last)

tag_option : Bytes → Option Bytes
unfolding is_empty
tag_option tag = if is_empty tag then none else some tag

unfoldable pub newest : Bytes → Bytes → Option Bytes
newest latest current =
    if is_empty latest then none else if is_version_newer latest current then some latest else none

module _ (fp : Doubles) where
  open fp use {Double}

  -- `fetchLatestTagFromGitHub`, none where curl_easy_init fails
  unfoldable pub fetch_latest_tag : Option Reply → Result (Option Bytes)
  unfolding tag_option
  fetch_latest_tag none = ok none
  fetch_latest_tag (some reply) =
      if reply.performed && (reply.http_code == 200)
      then catch_json none (do
        parsed ← parse fp reply.body
        ok (tag_option (as_string [] (get (codes "tag_name") parsed))))
      else ok none

  pub cache_of : Json Double → Cache
  cache_of j = record {
    last_checked_at = as_int fp (pos 0) (get (codes "lastCheckedAt") j);
    latest_version = as_string [] (get (codes "latestVersion") j);
  }

  -- `readCache`, on the text of the file
  unfoldable pub read_cache : Option Bytes → Result Cache
  read_cache none = ok no_cache
  read_cache (some s) = catch_json no_cache (do j ← parse fp s; ok (cache_of j))

  pub cache_json : Cache → Result (Json Double)
  cache_json cache = do
    j ← set (codes "lastCheckedAt") (number (fp.of_int cache.last_checked_at)) (object end)
    set (codes "latestVersion") (string cache.latest_version) j

  pub written : Option Bytes → Result (Json Double) → Option Bytes
  written file (ok j) = some (dump fp j)
  written file _ = file

  -- `writeCache`, which catches every exception
  unfoldable pub write_cache : Bool → Cache → Option Bytes → Option Bytes
  write_cache can_write cache file = if can_write then written file (cache_json cache) else file

  pub latest : Option Bytes → Bytes → Bytes
  latest none known = known
  latest (some tag) known = tag

  -- What `checkForNewerVersion` returns, with the cache file it leaves.
  abbrev pub Checked : Type 0
  Checked = Result (Option Bytes) × Option Bytes

  pub after_fetch : Bool → ℤ → Bytes → Cache → Option Bytes → Result (Option Bytes) → Checked
  after_fetch can_write now current cache file (ok fetched) =
      let cache2 : Cache = record {
        last_checked_at = now;
        latest_version = latest fetched cache.latest_version;
      } in
      (ok (newest cache2.latest_version current), write_cache can_write cache2 file)
  after_fetch can_write now current cache file (err e) = (err e, file)
  after_fetch can_write now current cache file stuck = (stuck, file)

  pub with_cache : Option Reply → Bool → ℤ → Bytes → Option Bytes → Result Cache → Checked
  with_cache reply can_write now current file (ok cache) =
      if is_stale now cache.last_checked_at
      then after_fetch can_write now current cache file (fetch_latest_tag reply)
      else (ok (newest cache.latest_version current), file)
  with_cache reply can_write now current file (err e) = (err e, file)
  with_cache reply can_write now current file stuck = (stuck, file)

  -- `has_path` says whether the configuration directory is known.
  unfoldable pub check_for_newer_version :
      Bool → Option Reply → Bool → ℤ → Bytes → Option Bytes → Checked
  check_for_newer_version has_path reply can_write now current file =
      if has_path
      then with_cache reply can_write now current file (read_cache file)
      else (ok none, file)
