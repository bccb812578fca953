-- ===== src/Tests/Connecting.antt =====
-- An issuer, the cache of its keys, a verifier and an interceptor together at concrete inputs.
use internal_jwt_handling.Base.{
  String, ap, ℕ, ◌*◌, [], ◌∷◌, none, some, ◌≡◌, refl, inl, arith, eq_iff, Bool, false, ◌==◌,
  if◌then◌else◌,
}
use internal_jwt_handling.Base.Int.{pos}
use internal_jwt_handling.Time.{second, minute}
use internal_jwt_handling.Result.{Result, ok}
use internal_jwt_handling.Io.{Clock}
use internal_jwt_handling.Strings.{equal_fold, contains_space, fields}
use internal_jwt_handling.Context.{Context, background, claims_from_context}
use internal_jwt_handling.Issuer.Publish.{publish, issuer_jwks}
use internal_jwt_handling.Jwks.Model.{Cache, Network}
use internal_jwt_handling.Jwks.Healthy.{Asks}
use internal_jwt_handling.Verifier.Build.{Settings, Verifier, parser_options, default_leeway}
use internal_jwt_handling.Verifier.Verify.{verify, verify_for}
use internal_jwt_handling.Verifier.Bearer.{IsBearer}
use internal_jwt_handling.Verifier.Trust.{IsReady}
use internal_jwt_handling.Interceptor.Model.{authenticated, Policy, Header, Interceptor}
use internal_jwt_handling.Interceptor.Authorize.{
  accepted_token_uses, default_token_uses, allowed, authorize,
}
use internal_jwt_handling.Claims.{Claims}
use internal_jwt_handling.Strings.{is_blank}
use internal_jwt_handling.Jwks.Model.{
  Config, ParsedUrl, new, validate_url, or_default, or_default_size,
}
use internal_jwt_handling.Jwks.Reachable.{Reachable}
use internal_jwt_handling.Verifier.Trust.{IsTrusted}
use internal_jwt_handling.Agreement.Rooted.{IsRooted, verify_for-IsRooted}
use internal_jwt_handling.Agreement.Served.{resolver_of, IsPublished, verify_for-served}
use internal_jwt_handling.Agreement.Allowed.{IsEntitled, authorize-issue_from_external}
use internal_jwt_handling.Tests.Fixtures.{issuer_named, external_input}
use internal_jwt_handling.Tests.Issuing.{identifiers_filled, truncates, converted}
use internal_jwt_handling.Tests.Publishing.{ecdsa, standard, set, document, public_of, publishing}
use internal_jwt_handling.Tests.Tokens.{read, reads, signer}
use internal_jwt_handling.Tests.Parsing.{parser, agrees, SignedBy, parses}
use internal_jwt_handling.Tests.Agreeing.{
  issuer, verifier, ready, token_of, converted_signed, shares,
}

-- The outside of the verifier's process is a number of seconds; the endpoint has the issuer's JWKS.
abbrev pub net : Network ℕ
net = record {
  now = λ v. (v * second, v);
  sleep = λ d v. (none, v);
  is_over = λ v. false;
  new_request = λ url. none;
  send = λ url d v. (
    ok (record {
      status_code = 200;
      status = "200 OK";
      body = record { bytes = 1 ∷ []; fault = none };
    }),
    v,
  );
  unmarshal = λ bytes. ok document;
}

abbrev pub cache : Cache Bool
cache = record {
  settings = record {
    url = "https://issuer/jwks";
    cache_ttl = pos (5 * minute);
    refresh_cooldown = pos (30 * second);
    failure_cooldown = pos (5 * second);
    fetch_timeout = pos (5 * second);
    retry_backoff = [];
    max_document_size = pos 1048576;
  };
  keys = [];
  expiry = 0;
  last_refresh = 0;
  last_failure = 0;
  last_error = none;
}

-- The time of a verifier that shares its outside with the cache.
abbrev pub cached_clock : Clock (ℕ × Cache Bool)
cached_clock (v, c) = (20 * second, (v, c))

abbrev pub cached_settings : Settings (ℕ × Cache Bool) Bool
cached_settings = record {
  issuer_id = "gw";
  audience = "orders";
  keys = resolver_of ecdsa net;
  leeway = default_leeway;
  now = some cached_clock;
}

abbrev cached_verifier : Verifier (ℕ × Cache Bool) Bool
cached_verifier = record {
  settings = cached_settings;
  parser = parser_options cached_settings cached_clock;
}

abbrev cached_ready : IsReady cached_verifier
cached_ready = record {
  leeway = omega arith;
  clock = cached_clock;
  set = refl;
  es256_alone = refl;
  named = issuer_named;
  own_issuer = refl;
  needs_exp = refl;
  checks_iat = refl;
  same_leeway = refl;
  same_clock = refl;
}

published : issuer_jwks ecdsa public_of issuer 6 ≡ (ok document, 6)
unfolding publishing issuer_jwks publish
published = refl

endpoint : IsPublished ecdsa net cache 20 document
endpoint = record {
  made = refl;
  response = record {
    status_code = 200;
    status = "200 OK";
    body = record { bytes = 1 ∷ []; fault = none };
  };
  received = 20;
  sent = refl;
  status = refl;
  whole = refl;
  fits = omega arith;
  limited = omega arith;
  written = refl;
}

first_time : Asks ecdsa net cache "k1" (20 * second)
first_time = record {
  named = ground (arith, eq_iff "k1" "");
  wanting = inl (omega arith);
  rested = inl refl;
}

served :
    (verify_for (parser converted) cached_verifier "signed" "orders" (20, cache)).0 ≡ ok converted
served =
    verify_for-served ecdsa net public_of standard (signer converted) (parser converted) read reads
      (agrees converted) truncates identifiers_filled issuer cached_verifier cached_ready set 1
      document external_input (token_of converted) 5 7 6 6 20 cache
      (record { issuer = refl; provided = λ w. refl; held = refl; cached = refl }) converted_signed
      published endpoint first_time (omega arith) (omega arith) (omega arith)

verify_for-served_example :
    (verify_for (parser converted) cached_verifier "signed" "orders" (20, cache)).0 ≡ ok converted
verify_for-served_example =
    verify_for-served ecdsa net public_of standard (signer converted) (parser converted) read reads
      (agrees converted) truncates identifiers_filled issuer cached_verifier cached_ready set 1
      document external_input (token_of converted) 5 7 6 6 20 cache
      (record { issuer = refl; provided = λ w. refl; held = refl; cached = refl }) converted_signed
      published endpoint first_time (omega arith) (omega arith) (omega arith)

abbrev policy : Policy
policy = record { level = authenticated; required_scopes = "a" ∷ []; token_uses = [] }

abbrev access : Interceptor ℕ
access = record {
  verifier = verify (parser converted) verifier;
  policies = record { count = 1; lookup = λ p. if p == "Get" then some policy else none };
  options = record { reporter = none; authenticated_token_uses = []; token_uses = λ p. [] };
}

abbrev header : Header
header name = "Bearer signed"

entitled : IsEntitled access "Get" external_input
unfolding accepted_token_uses default_token_uses fields
entitled = record {
  policy = policy;
  named = refl;
  guarded = ground arith;
  uses = "tenant_access" ∷ [];
  accepted = refl;
  listed = inl refl;
  granted = (inl refl, tt);
}

carried : IsBearer "Bearer signed" "signed"
unfolding equal_fold contains_space
carried = record {
  scheme = "Bearer";
  written = refl;
  bearer = refl;
  word = (ground (arith, eq_iff "signed" ""), refl);
}

authorize-issue_from_external_example :
    (ctx' : Context) × (authorize access background "Get" header 20 ≡ (allowed ctx', 20))
    × (claims_from_context ctx' ≡ some converted)
authorize-issue_from_external_example =
    authorize-issue_from_external (signer converted) (parser converted) read public_of reads
      (agrees converted) truncates identifiers_filled issuer verifier ready access refl
      external_input 5 7 (token_of converted) 20 20 set 1 background "Get" header converted_signed
      (shares converted) (omega arith) (omega arith) (omega arith) refl entitled carried

abbrev config : Config
config = record {
  url = "https://issuer/jwks";
  cache_ttl = pos 0;
  refresh_cooldown = pos 0;
  failure_cooldown = pos 0;
  fetch_timeout = pos 0;
  retry_backoff = some [];
  max_document_size = pos 0;
}

abbrev parse : String → Result ParsedUrl
parse raw = ok (record { scheme = "https"; host = "issuer" })

built : new {Public = Bool} parse config ≡ ok cache
unfolding new validate_url or_default or_default_size is_blank
built = refl

abbrev verified : Result Claims × (ℕ × Cache Bool)
verified = verify_for (parser converted) cached_verifier "signed" "orders" (20, cache)

verify_for-IsRooted_example :
    IsTrusted SignedBy cached_verifier cached_clock "orders" "signed" (20, cache) converted
    × IsRooted ecdsa net SignedBy cache 20 "signed"
verify_for-IsRooted_example =
    verify_for-IsRooted ecdsa net SignedBy (parser converted) (parses converted) cached_verifier
      cached_ready refl "signed" "orders" 20 cache verified.1 converted
      (Reachable.built parse config built) (ap (λ r. (r, verified.1)) served)
