-- ===== src/Tests/Fixtures.antt =====
-- Concrete inputs for the tests: an outside whose state is a number of seconds, keys that are
-- numbers, a parser and a network that answer from fixed data.
use internal_jwt_handling.Base.{
  ℕ, ◌+◌, ◌*◌, ◌/◌, [], ◌∷◌, none, some, contains, if◌then◌else◌, ◌==◌, String, ◌≢◌, arith, eq_iff,
}
use internal_jwt_handling.Base.Int.{pos, neg_part}
use internal_jwt_handling.Errors.{foreign}
use internal_jwt_handling.Time.{second}
use internal_jwt_handling.Result.{ok, err}
use internal_jwt_handling.Io.{Clock, continue}
use internal_jwt_handling.Claims.{Claims}
use internal_jwt_handling.Verifier.Build.{
  Header, text, KeyResolver, ParserOptions, Parser, Settings, Verifier, parser_options,
  default_leeway,
}
use internal_jwt_handling.Issuer.Model.{
  Outside, Issuer, ExternalTokenInput, UserOriginServiceInput, MachineOriginServiceInput,
}

abbrev pub tenant_claims : Claims
tenant_claims = record {
  registered = record {
    issuer = "gw";
    subject = "user-1";
    audience = "orders" ∷ [];
    expires_at = some (100 * second);
    not_before = some (5 * second);
    issued_at = some (5 * second);
    id = "jti-1";
  };
  token_use = "tenant_access";
  client_id = "app";
  txn = "txn-1";
  scope = "a b";
  source_jti = "ext-1";
  source_expires_at = some (100 * second);
  origin_sub = "";
  tenant_public_id = "t1";
  event_public_id = "";
}

abbrev pub clock : Clock ℕ
clock w = (w * second, w)

-- Every kid but "gone" has the key 7.
abbrev pub keys : KeyResolver ℕ ℕ
keys kid w = if kid == "gone" then (err (foreign "refused"), w) else (ok (some 7), w)

abbrev pub header : Header
header name =
    if name == "typ" then some (text "jwt") else if name == "kid" then some (text "k1") else none

-- Tokens with any text carry these claims, of the issuer that is asked for.
abbrev pub claims_at : ParserOptions ℕ → ℕ → Claims
claims_at o w = record tenant_claims {
  registered = record {
    issuer = o.issuer;
    subject = "user-1";
    audience = "orders" ∷ [];
    expires_at = some ((o.time_func w).0 + 1 + neg_part o.leeway);
    not_before = some 0;
    issued_at = some 0;
    id = "jti-1";
  };
}

abbrev pub parse : Parser ℕ ℕ
parse o token find w = continue (find header w) (λ key u.
    if contains o.valid_methods "ES256"
    then (ok (claims_at o u), u)
    else (err (foreign "signing method"), u))

pub issuer_named : ◌≢◌ {A = String} "gw" ""
issuer_named = ground (arith, eq_iff "gw" "")

abbrev pub verifier_settings : Settings ℕ ℕ
verifier_settings = record {
  issuer_id = "gw";
  audience = "orders";
  keys = keys;
  leeway = default_leeway;
  now = some clock;
}

abbrev pub verifier : Verifier ℕ ℕ
verifier = record { settings = verifier_settings; parser = parser_options verifier_settings clock }

-- Identifiers are one text; a signed token is its kid.
abbrev pub outside : Outside ℕ ℕ
outside = record {
  new_v7 = λ w. (ok "id", w + 1);
  numeric_date = λ t. t / second * second;
  signed_string = λ kid key payload w. (ok kid, w);
}

abbrev pub issuer : Issuer ℕ ℕ ℕ
issuer = record {
  settings = record {
    issuer_id = "gw";
    keys =
        λ w. (ok (record { signing = record { key_id = "k1"; key = some 7 }; published = [] }), w);
    ttl = pos (120 * second);
    now = some clock;
  };
  clock = clock;
}

abbrev pub external_input : ExternalTokenInput
external_input = record {
  audience = "orders";
  token_use = "tenant_access";
  subject = "user-1";
  client_id = "app";
  scope = "a b";
  source_jti = "ext-1";
  source_expires_at = 100 * second;
  tenant_public_id = "t1";
  event_public_id = "";
}

-- "orders" calls "billing" on behalf of the token that it holds.
abbrev pub user_input : UserOriginServiceInput
user_input = record { audience = "billing"; caller_service = "orders"; context = tenant_claims }

abbrev pub machine_input : MachineOriginServiceInput
machine_input = record { audience = "billing"; caller_service = "batch"; context = none }
