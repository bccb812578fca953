-- ===== src/Jwks/Model.antt =====
-- The cache of jwks/cache.go, its configuration, and what it calls outside the repository.
use internal_jwt_handling.Base.{
  ℕ, ◌+◌, ◌*◌, String, List, [], ◌∷◌, Option, none, some, ◌==◌, ◌&&◌, not, length, take, leb,
  nat_eq, if◌then◌else◌, Bool,
}
use internal_jwt_handling.Base.Int.{ℤ, pos, leb_ℤ, pos_part}
use internal_jwt_handling.Errors.{Error, sentinel, detail, wrap, jwks, missing_url, invalid_url}
use internal_jwt_handling.Time.{
  Time, Duration, zero_time, second, millisecond, minute, max_duration,
}
use internal_jwt_handling.Strings.{is_blank}
use internal_jwt_handling.Result.{Result, ok, err, ◌>>=◌, ◌>>◌, reject, map_err}
use internal_jwt_handling.Io.{Clock}
use internal_jwt_handling.Jwk.{Jwks}

abbrev pub default_cache_ttl : Duration
default_cache_ttl = pos (5 * minute)

abbrev pub default_refresh_cooldown : Duration
default_refresh_cooldown = pos (30 * second)

abbrev pub default_failure_cooldown : Duration
default_failure_cooldown = pos (5 * second)

abbrev pub default_fetch_timeout : Duration
default_fetch_timeout = pos (5 * second)

abbrev pub default_max_document_size : ℤ
default_max_document_size = pos 1048576

abbrev pub default_retry_backoff : List Duration
default_retry_backoff = pos (100 * millisecond) ∷ pos (200 * millisecond) ∷ []

-- Config; a nil RetryBackoff is `none`. The HTTP client is part of the outside.
pub record Config : Type 0 where
  pub url : String
  pub cache_ttl : Duration
  pub refresh_cooldown : Duration
  pub failure_cooldown : Duration
  pub fetch_timeout : Duration
  pub retry_backoff : Option (List Duration)
  pub max_document_size : ℤ

-- The fields of Cache that New sets and nothing changes.
pub record Settings : Type 0 where
  pub url : String
  pub cache_ttl : Duration
  pub refresh_cooldown : Duration
  pub failure_cooldown : Duration
  pub fetch_timeout : Duration
  pub retry_backoff : List Duration
  pub max_document_size : ℤ

-- A Go map from kids to keys, as an association list without repeated kids.
abbrev pub KeyMap : Type 0 → Type 0
KeyMap Public = List (String × Public)

unfoldable pub lookup : {Public : Type 0} → String → KeyMap Public → Option Public
lookup kid [] = none
lookup kid ((k, key) ∷ keys) = if k == kid then some key else lookup kid keys

pub record Cache (Public : Type 0) : Type 0 where
  pub settings : Settings
  pub open settings use *
  pub keys : KeyMap Public
  pub expiry : Time
  pub last_refresh : Time
  pub last_failure : Time
  pub last_error : Option Error

-- A response's body: the bytes that arrive, and the error that follows them, if one does.
pub record Body : Type 0 where
  pub bytes : List ℕ
  pub fault : Option Error

pub record Response : Type 0 where
  pub status_code : ℕ
  pub status : String
  pub body : Body

-- net/url's Parse, as far as the source reads its result.
pub record ParsedUrl : Type 0 where
  pub scheme : String
  pub host : String

-- What a call of the cache finds outside: the clock, the wait between attempts (its error is the
-- context's), whether the caller's context has ended, the making and sending of a request (each
-- attempt is given the URL and its timeout), and the reading of a JWKS document.
pub record Network (W : Type 0) : Type 0 where
  pub now : Clock W
  pub sleep : Duration → W → Option Error × W
  pub is_over : W → Bool
  pub new_request : String → Option Error
  pub send : String → Duration → W → Result Response × W
  pub unmarshal : List ℕ → Result Jwks

-- io.ReadAll(io.LimitReader(body, n)); the reader stops at the limit before it meets the fault.
unfoldable pub read_limited : ℕ → Body → Result (List ℕ)
read_limited n body =
    if leb n (length body.bytes)
    then ok (take n body.bytes)
    else elim body.fault [ none ↦ ok body.bytes | some e ↦ err e ]

-- `maxDocumentSize + 1` as the limit of a LimitReader: the greatest int64 wraps round to the least,
-- and a reader whose limit is not positive reads nothing.
unfoldable pub read_limit : ℤ → ℕ
read_limit size = if nat_eq (pos_part size) max_duration then 0 else pos_part size + 1

-- orDefaultDuration
unfoldable pub or_default : Duration → Duration → Duration
or_default value fallback = if leb_ℤ value (pos 0) then fallback else value

-- orDefaultSize
unfoldable pub or_default_size : ℤ → ℤ → ℤ
or_default_size value fallback = if leb_ℤ value (pos 0) then fallback else value

-- validateURL; `parse` is net/url's
unfoldable pub validate_url : (String → Result ParsedUrl) → String → Result (Unit {0})
validate_url parse raw = do
  reject (is_blank raw) (sentinel (jwks missing_url))
  parsed ← map_err (λ e. wrap (detail (sentinel (jwks invalid_url)) raw) e) (parse raw)
  reject (not (parsed.scheme == "http") && not (parsed.scheme == "https"))
      (detail (sentinel (jwks invalid_url)) raw)
  reject (parsed.host == "") (detail (sentinel (jwks invalid_url)) raw)

abbrev given_or : {A : Type 0} → Option A → A → A
given_or none d = d
given_or (some a) d = a

-- New
unfoldable pub new :
    {Public : Type 0} → (String → Result ParsedUrl) → Config → Result (Cache Public)
unfolding or_default or_default_size
new parse config = do
  validate_url parse config.url
  ok (record {
    settings = record {
      url = config.url;
      cache_ttl = or_default config.cache_ttl default_cache_ttl;
      refresh_cooldown = or_default config.refresh_cooldown default_refresh_cooldown;
      failure_cooldown = or_default config.failure_cooldown default_failure_cooldown;
      fetch_timeout = or_default config.fetch_timeout default_fetch_timeout;
      retry_backoff = given_or config.retry_backoff default_retry_backoff;
      max_document_size = or_default_size config.max_document_size default_max_document_size;
    };
    keys = [];
    expiry = zero_time;
    last_refresh = zero_time;
    last_failure = zero_time;
    last_error = none;
  })
