-- ===== src/Tests/Caching.antt =====
-- The jwks package at concrete inputs: a network that serves one key in one piece.
use internal_jwt_handling.Base.{
  ℕ, ◌+◌, ◌*◌, ◌≡◌, ◌≢◌, ◌≤◌, refl, [], ◌∷◌, none, some, String, arith, eq_iff, inl, length, false,
}
use internal_jwt_handling.Base.Int.{pos}
use internal_jwt_handling.Errors.{Error, foreign, sentinel, wrap, jwks, fetch, failure_cooldown}
use internal_jwt_handling.Result.{Result, ok, err}
use internal_jwt_handling.Time.{second, minute, max_duration}
use internal_jwt_handling.Strings.{is_blank}
use internal_jwt_handling.Base64.{decode, value}
use internal_jwt_handling.Jwk.{Jwk, Ecdsa, p256, public_key, coordinate}
use internal_jwt_handling.Jwks.Model.{
  Config, Cache, Network, lookup, ParsedUrl, validate_url, new, or_default, or_default_size,
  read_limited, read_limit,
}
use internal_jwt_handling.Jwks.Fetch.{
  refreshed, parse_from, parse_keys, refresh_once, refresh_with, refresh,
}
use internal_jwt_handling.Jwks.Lookup.{fetch_locked, key_by_fetch, key_at, key, refresh_keys}
use internal_jwt_handling.Jwks.Documents.{Holds, Distinct, kids, parse_from-Holds_iff}
use internal_jwt_handling.Jwks.Healthy.{IsHealthy, Asks, filled_at, key-IsHealthy}
use internal_jwt_handling.Jwks.Resting.{Fails, key-Rests}
use internal_jwt_handling.Jwks.Reachable.{Reachable, looked_up, IsSound, Reachable-IsSound}
use internal_jwt_handling.Jwks.Refreshing.{refresh_with-bounded}
use internal_jwt_handling.Jwks.Serving.{IsCoherent, new-IsCoherent}
use internal_jwt_handling.Jwks.Answers.{Serves, key_at-Serves, refresh_once-greatest_size}

-- A key is the number of bytes of its encoding.
abbrev ecdsa : Ecdsa ℕ
ecdsa = record {
  curve_of = λ k. some p256;
  bytes = λ k. err (foreign "not asked");
  parse_uncompressed = λ bs. ok (length bs);
}

abbrev coordinate_text : String
coordinate_text = "AAAAAAAAAAAAAAAAAAAAAAAAAAAAAAAAAAAAAAAAAAA"

abbrev published : Jwk
published = record {
  key_type = "EC";
  curve = "P-256";
  key_id = "k1";
  use' = "sig";
  algorithm = "ES256";
  x = coordinate_text;
  y = coordinate_text;
}

-- The outside counts the requests that are sent; a document that is not empty is the one above.
abbrev net : Network ℕ
net = record {
  now = λ w. (10 * second, w);
  sleep = λ d w. (none, w);
  is_over = λ w. false;
  new_request = λ url. none;
  send = λ url d w. (
    ok (record {
      status_code = 200;
      status = "200 OK";
      body = record { bytes = 1 ∷ []; fault = none };
    }),
    w + 1,
  );
  unmarshal =
      λ bs. elim bs [ [] ↦ err (foreign "end") | b ∷ bs ↦ ok (record { keys = published ∷ [] }) ];
}

abbrev config : Config
config = record {
  url = "https://keys";
  cache_ttl = pos 0;
  refresh_cooldown = pos 0;
  failure_cooldown = pos 0;
  fetch_timeout = pos 0;
  retry_backoff = none;
  max_document_size = pos 0;
}

abbrev parse : String → Result ParsedUrl
parse raw = ok (record { scheme = "https"; host = "keys" })

abbrev cache : Cache ℕ
cache = record {
  settings = record {
    url = "https://keys";
    cache_ttl = pos (5 * minute);
    refresh_cooldown = pos (30 * second);
    failure_cooldown = pos (5 * second);
    fetch_timeout = pos (5 * second);
    retry_backoff = pos (100 * 1000000) ∷ pos (200 * 1000000) ∷ [];
    max_document_size = pos 1048576;
  };
  keys = [];
  expiry = 0;
  last_refresh = 0;
  last_failure = 0;
  last_error = none;
}

abbrev filled : Cache ℕ
filled = record cache {
  keys = ("k1", 65) ∷ [];
  expiry = 10 * second + 5 * minute;
  last_refresh = 10 * second;
}

caching : Unit {0}
unfolding new validate_url or_default or_default_size is_blank parse_from parse_keys public_key
    coordinate decode value lookup read_limited read_limit refresh_once refresh_with refresh
    fetch_locked key_by_fetch key_at key
caching = tt

built : new {Public = ℕ} parse config ≡ ok cache
unfolding caching
built = refl

parsed : parse_from ecdsa [] (published ∷ []) ≡ ok (("k1", 65) ∷ [])
unfolding caching
parsed = refl

fetched : (refresh_with ecdsa net cache.retry_backoff cache 3).0 ≡ refreshed filled
unfolding caching
fetched = refl

served : (key_at ecdsa net cache "k1" (10 * second) 3).result ≡ ok 65
unfolding caching
served = refl

document_held : Holds ecdsa (published ∷ []) (("k1", 65) ∷ []) × Distinct (kids (published ∷ []))
document_held = (parse_from-Holds_iff ecdsa (published ∷ []) (("k1", 65) ∷ [])).0 parsed

parse_from-Holds_iff_example :
    Holds ecdsa (published ∷ []) (("k1", 65) ∷ []) × Distinct (kids (published ∷ []))
parse_from-Holds_iff_example =
    (parse_from-Holds_iff ecdsa (published ∷ []) (("k1", 65) ∷ [])).0 parsed

refresh_with-bounded_example :
    (refresh_with ecdsa net cache.retry_backoff cache 3).1 ≤ 3 + (length cache.retry_backoff + 1)
refresh_with-bounded_example =
    refresh_with-bounded ecdsa net (λ w. w) (λ url d w. omega arith) (λ w. refl) (λ d w. refl)
      cache.retry_backoff cache 3

coherent : IsCoherent cache
coherent = new-IsCoherent parse config cache built

key_at-Serves_example :
    Serves ecdsa net cache "k1"
      (10 * second)
      3
      65
      (key_at ecdsa net cache "k1" (10 * second) 3).cache
key_at-Serves_example = key_at-Serves ecdsa net cache "k1" (10 * second) 3 65 served

-- The greatest MaxDocumentSize that a configuration can ask for.
abbrev boundless : Cache ℕ
boundless = record cache {
  settings = record cache.settings { max_document_size = pos max_duration };
}

refresh_once-greatest_size_example : (refresh_once ecdsa net boundless 3).0 ≢ refreshed filled
refresh_once-greatest_size_example =
    refresh_once-greatest_size ecdsa net boundless 3 filled (foreign "end") refl refl

endpoint : IsHealthy ecdsa net cache 3 (("k1", 65) ∷ [])
unfolding caching
endpoint = record {
  made = refl;
  response = record {
    status_code = 200;
    status = "200 OK";
    body = record { bytes = 1 ∷ []; fault = none };
  };
  received = 4;
  sent = refl;
  status = refl;
  whole = refl;
  fits = omega arith;
  limited = omega arith;
  read = refl;
}

first_time : Asks ecdsa net cache "k1" (10 * second)
first_time = record {
  named = ground (arith, eq_iff "k1" "");
  wanting = inl (omega arith);
  rested = inl refl;
}

listed : lookup {Public = ℕ} "k1" (("k1", 65) ∷ []) ≡ some 65
unfolding lookup
listed = refl

key-IsHealthy_example : key ecdsa net cache "k1" 3 ≡ record {
  result = ok 65;
  cache = filled_at ecdsa net cache (("k1", 65) ∷ []) (10 * second);
  outside = 4;
}
unfolding endpoint
key-IsHealthy_example =
    key-IsHealthy ecdsa net cache "k1" 3 (("k1", 65) ∷ []) endpoint 65 first_time listed

Reachable-IsSound_example :
    IsSound ecdsa net (refresh_keys ecdsa net (key ecdsa net cache "k1" 3).cache 4).cache
Reachable-IsSound_example =
    Reachable-IsSound ecdsa net
      (Reachable.refreshed 4 (looked_up "k1" 3 (Reachable.built parse config built)))

-- The endpoint does not answer.
abbrev broken : Network ℕ
broken = record net { send = λ url d w. (err (foreign "refused"), w + 1) }

abbrev refusal : Error
refusal = wrap (sentinel (jwks fetch)) (foreign "refused")

outage : Fails ecdsa broken cache 3 (10 * second) refusal
unfolding caching refresh_keys
outage = record { failed = refl; time = refl; lives = refl; counted = ground arith }

key-Rests_example : key ecdsa broken (refresh_keys ecdsa broken cache 3).cache "k1" 6 ≡ record {
  result = err (wrap (sentinel (jwks failure_cooldown)) refusal);
  cache = record cache { last_failure = 10 * second; last_error = some refusal };
  outside = 6;
}
key-Rests_example =
    key-Rests ecdsa broken cache "k1" 3 6 (10 * second) refusal outage (record {
      named = ground (arith, eq_iff "k1" "");
      wanting = inl (omega arith);
      recent = refl;
    })
