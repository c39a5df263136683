-- ===== src/Remote/Settings/Ranges.antt =====
-- The ranges of accepted settings of steam_pumper/remote_sources.py.
use steam_download_pumper.Common.{
  ℕ, ◌≤◌, ◌≡◌, subst, ◌&&◌, not, Option, none, some, leb, if◌then◌else◌, arith,
}
use steam_download_pumper.Common.Text.{Text, codes}
use steam_download_pumper.Common.Result.{
  ok, raise_if, >>=-eq-ok, >>-eq-ok, >>-eq-ok_first, raise_if-eq-ok, ok-injective,
}
use steam_download_pumper.Fleet.Strings.{strip}
use steam_download_pumper.Remote.Envelope.{RemoteSourceSettings}
use steam_download_pumper.Remote.Settings.{
  SettingsError, bad_time, out_of_range, Environment, Loaded, required, or_default, bool_of,
  in_range, stable_jitter, env_int, check_enabled, read_text, from_env,
}

-- What the manager relies on.
pub record IsInRange (s : RemoteSourceSettings) : Type 0 where
  pub hour_bound : s.refresh_hour ≤ 23
  pub minute_bound : s.refresh_minute ≤ 59
  pub jitter_bound : s.stable_jitter_seconds ≤ 3600
  pub some_bytes : 1024 ≤ s.max_bytes
  pub few_bytes : s.max_bytes ≤ 1048576
  pub some_sources : 3 ≤ s.min_sources
  pub few_sources : s.min_sources ≤ 100

in_range_lem :
    (low high : ℕ) (v : Option ℕ) {n : ℕ} → in_range low high v ≡ ok n → (low ≤ n) × (n ≤ high)
unfolding in_range
in_range_lem low high none h = cc
in_range_lem low high (some m) h =
    let wrong = raise_if (not (leb low m && leb m high)) out_of_range in
    let inside = raise_if-eq-ok _ _ (>>-eq-ok_first wrong _ h) in
    subst (λ n. (low ≤ n) × (n ≤ high)) (ok-injective (>>-eq-ok wrong _ h)) (ground arith)

required-eq-ok :
    {A : Type 0} (found : Option A) (e : SettingsError) {a : A}
    → required found e ≡ ok a
    → found ≡ some a
required-eq-ok none e h = cc
required-eq-ok (some a) e h = cc

stable_jitter_bound :
    (digest jitter bound : ℕ) → jitter ≤ bound → stable_jitter digest jitter ≤ bound
stable_jitter_bound digest jitter bound h = ground arith

module _ (env : Environment) where
  -- Where `strptime` gives a time of the day, settings that are accepted are in their ranges.
  from_env-IsInRange :
      (digest : ℕ) {l : Loaded}
      → ((t : Text) (h m : ℕ) → env.time_of t ≡ some (h, m) → (h ≤ 23) × (m ≤ 59))
      → from_env env digest ≡ ok l
      → IsInRange l.settings
  unfolding from_env
  from_env-IsInRange digest times h =
      let (enabled, e0, h0) = >>=-eq-ok (bool_of _) _ h in
      let (jitter_read, e1, h1) =
        >>=-eq-ok (env_int env (codes "SOURCE_LIST_REFRESH_JITTER_SECONDS") 1800) _ h0 in
      let (timeout_read, e2, h2) =
        >>=-eq-ok (env_int env (codes "SOURCE_LIST_FETCH_TIMEOUT_SECONDS") 15) _ h1 in
      let (bytes_read, e3, h3) =
        >>=-eq-ok (env_int env (codes "SOURCE_LIST_MAX_BYTES") 524288) _ h2 in
      let (sources_read, e4, h4) =
        >>=-eq-ok (env_int env (codes "SOURCE_LIST_MIN_SOURCES") 3) _ h3 in
      let read = strip (or_default (env.get (codes "SOURCE_LIST_REFRESH_TIME")) (codes "04:00")) in
      let (time, e5, h5) = >>=-eq-ok (required (env.time_of read) bad_time) _ h4 in
      let (jitter, e6, h6) = >>=-eq-ok (in_range 0 3600 jitter_read) _ h5 in
      let (timeout, e7, h7) = >>=-eq-ok (in_range 1 300 timeout_read) _ h6 in
      let (max_bytes, e8, h8) = >>=-eq-ok (in_range 1024 1048576 bytes_read) _ h7 in
      let (min_sources, e9, h9) = >>=-eq-ok (in_range 3 100 sources_read) _ h8 in
      let checks =
        if enabled
        then check_enabled env (read_text env (codes "SOURCE_LIST_URL"))
            (read_text env (codes "SOURCE_LIST_PUBLIC_KEY"))
            (read_text env (codes "SOURCE_LIST_KEY_ID"))
        else ok tt in
      let day = times read time.0 time.1 (required-eq-ok (env.time_of read) bad_time e5) in
      let few_jitter = in_range_lem 0 3600 jitter_read e6 in
      let bytes = in_range_lem 1024 1048576 bytes_read e8 in
      let sources = in_range_lem 3 100 sources_read e9 in
      subst (λ (l : Loaded). IsInRange l.settings) (ok-injective (>>-eq-ok checks _ h9))
        (record {
          hour_bound = day.0;
          minute_bound = day.1;
          jitter_bound = stable_jitter_bound digest jitter 3600 few_jitter.1;
          some_bytes = bytes.0;
          few_bytes = bytes.1;
          some_sources = sources.0;
          few_sources = sources.1;
        })
