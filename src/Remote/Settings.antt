-- ===== src/Remote/Settings.antt =====
-- `RemoteSourceSettings.from_env` of steam_pumper/remote_sources.py, and the jitter that the manager
-- derives from the settings.
pub mod Ranges
use steam_download_pumper.Common.{
  ℕ, suc, ◌+◌, ◌*◌, ◌%◌, ◌≤◌, ◌≡◌, refl, subst, Bool, true, false, ◌&&◌, ◌||◌, not, Option, none,
  some, List, [], ◌∷◌, leb, ◌==◌, length, if◌then◌else◌, arith,
}
use steam_download_pumper.Common.Text.{Text, codes, text_eq, text_in}
use steam_download_pumper.Common.Result.{
  Result, ok, err, ◌>>=◌, ◌>>◌, raise_if, >>=-eq-ok, >>-eq-ok, >>-eq-ok_first, raise_if-eq-ok,
  ok-injective,
}
use steam_download_pumper.Fleet.Strings.{strip, lower}
use steam_download_pumper.Remote.Document.{SplitUrl}
use steam_download_pumper.Remote.Envelope.{RemoteSourceSettings}

-- The reason of the `ValueError`.
pub data SettingsError : Type 0 where
  no_boolean no_integer bad_time out_of_range bad_list_url bad_public_key no_key_id : SettingsError

-- The environment and what is used of the library: `int_of` is `none` where `int` raises, and its
-- inner `none` is a number below 0; `time_of` is `strptime` for `%H:%M`, an hour and a minute;
-- `key_length` is the length of what `b64decode` gives.
pub record Environment : Type 0 where
  pub get : Text → Option Text
  pub int_of : Text → Option (Option ℕ)
  pub time_of : Text → Option (ℕ × ℕ)
  pub urlsplit : Text → Option SplitUrl
  pub key_length : Text → Option ℕ

-- The settings, with the jitter that is configured; the URL and the key are not kept by the model.
pub record Loaded : Type 0 where
  pub settings : RemoteSourceSettings
  pub refresh_jitter_seconds : ℕ
  pub fetch_timeout_seconds : ℕ

abbrev true_texts : List Text
true_texts = codes "1" ∷ codes "true" ∷ codes "yes" ∷ codes "on" ∷ []

abbrev false_texts : List Text
false_texts = codes "0" ∷ codes "false" ∷ codes "no" ∷ codes "off" ∷ []

abbrev pub required : {A : Type 0} → Option A → SettingsError → Result SettingsError A
required none e = err e
required (some a) e = ok a

abbrev pub or_default : Option Text → Text → Text
or_default none text = text
or_default (some t) text = t

-- `_env_bool` of a text that was read or is the default.
unfoldable pub bool_of : Text → Result SettingsError Bool
bool_of raw =
    let word = lower (strip raw) in
    if text_in word true_texts
    then ok true
    else if text_in word false_texts
    then ok false
    else err no_boolean

-- A whole number in a range.
unfoldable pub in_range : ℕ → ℕ → Option ℕ → Result SettingsError ℕ
in_range low high none = err out_of_range
in_range low high (some n) = do raise_if (not (leb low n && leb n high)) out_of_range; ok n

-- `int.from_bytes(digest[:8]) % (jitter + 1)`, or 0 without a jitter.
abbrev pub stable_jitter : ℕ → ℕ → ℕ
stable_jitter digest jitter = if jitter == 0 then 0 else digest % (jitter + 1)

module _ (env : Environment) where
  -- `_env_int`; the default is a number.
  unfoldable pub env_int : Text → ℕ → Result SettingsError (Option ℕ)
  env_int name default = elim (env.get name) [
    | none ↦ ok (some default)
    | some raw ↦ required (env.int_of raw) no_integer
  ]

  -- The checks where the list is enabled.
  unfoldable pub check_url : SplitUrl → Result SettingsError (Unit {0})
  check_url parsed = do
    raise_if (not (text_eq (lower parsed.scheme) (codes "https")) || is_empty parsed.hostname)
        bad_list_url
    raise_if
        (not (is_empty parsed.username)
          || not (is_empty parsed.password)
          || not (length parsed.fragment == 0))
        bad_list_url
    where
      is_empty : Option Text → Bool
      is_empty none = true
      is_empty (some t) = length t == 0

  unfoldable pub check_enabled : Text → Text → Text → Result SettingsError (Unit {0})
  check_enabled url public_key key_id = do
    parsed ← required (env.urlsplit url) bad_list_url
    check_url parsed
    size ← required (env.key_length public_key) bad_public_key
    raise_if (not (size == 32)) bad_public_key
    raise_if (length key_id == 0) no_key_id

  abbrev pub read_text : Text → Text
  read_text name = strip (or_default (env.get name) [])

  unfoldable pub from_env : ℕ → Result SettingsError Loaded
  from_env digest = do
    enabled ← bool_of (or_default (env.get (codes "REMOTE_SOURCE_LIST_ENABLED")) (codes "false"))
    jitter_read ← env_int (codes "SOURCE_LIST_REFRESH_JITTER_SECONDS") 1800
    timeout_read ← env_int (codes "SOURCE_LIST_FETCH_TIMEOUT_SECONDS") 15
    bytes_read ← env_int (codes "SOURCE_LIST_MAX_BYTES") 524288
    sources_read ← env_int (codes "SOURCE_LIST_MIN_SOURCES") 3
    time ←
        required
          (env.time_of
            (strip (or_default (env.get (codes "SOURCE_LIST_REFRESH_TIME")) (codes "04:00"))))
          bad_time
    jitter ← in_range 0 3600 jitter_read
    timeout ← in_range 1 300 timeout_read
    max_bytes ← in_range 1024 1048576 bytes_read
    min_sources ← in_range 3 100 sources_read
    (if enabled
        then check_enabled (read_text (codes "SOURCE_LIST_URL"))
            (read_text (codes "SOURCE_LIST_PUBLIC_KEY")) (read_text (codes "SOURCE_LIST_KEY_ID"))
        else ok tt)
    ok (record {
      settings = record {
        enabled = enabled;
        key_id = read_text (codes "SOURCE_LIST_KEY_ID");
        refresh_hour = time.0;
        refresh_minute = time.1;
        stable_jitter_seconds = stable_jitter digest jitter;
        max_bytes = max_bytes;
        min_sources = min_sources;
      };
      refresh_jitter_seconds = jitter;
      fetch_timeout_seconds = timeout;
    })
