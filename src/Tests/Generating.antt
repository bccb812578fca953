-- ===== src/Tests/Generating.antt =====
-- The jwtgen package at concrete inputs.
use internal_jwt_handling.Base.{
  ℕ, ◌*◌, [], ◌∷◌, none, some, ◌≡◌, ◌≢◌, ◌↔◌, refl, arith, eq_iff, Bool, true,
}
use internal_jwt_handling.Base.Int.{pos}
use internal_jwt_handling.Time.{second}
use internal_jwt_handling.Result.{ok}
use internal_jwt_handling.Claims.{Claims}
use internal_jwt_handling.Issuer.Model.{Issuer}
use internal_jwt_handling.Issuer.Build
use internal_jwt_handling.Issuer.Build.{with_ttl}
use internal_jwt_handling.Issuer.Publish.{publish, issuer_jwks}
use internal_jwt_handling.Issuer.Issue.{issue}
use internal_jwt_handling.Jwks.Fetch.{parse_from}
use internal_jwt_handling.Jwtgen.Generator.{
  Config, Output, key_provider, or_default, generator_jwks, sign_unchecked,
}
use internal_jwt_handling.Jwtgen.Issue
use internal_jwt_handling.Jwtgen.Issue.{service_context, machine_origin_context}
use internal_jwt_handling.Jwtgen.Generate.{generate}
use internal_jwt_handling.Jwtgen.Generated.{Generates, generate-Generates}
use internal_jwt_handling.Jwtgen.Signing.{sign_unchecked-issue_iff}
use internal_jwt_handling.Verifier.Build.{Settings, Verifier, parser_options, default_leeway}
use internal_jwt_handling.Verifier.Verify.{verify_for}
use internal_jwt_handling.Verifier.Trust.{IsReady, IsCurrent}
use internal_jwt_handling.Agreement.Times.{Spans-IsCurrent}
use internal_jwt_handling.Agreement.Minted.{keys_in, generator_jwks-parse_from, verify_for-generate}
use internal_jwt_handling.Tests.Fixtures.{issuer_named, clock}
use internal_jwt_handling.Tests.Issuing.{identifiers_filled, truncates, converted}
use internal_jwt_handling.Tests.Publishing.{ecdsa, standard, marked, public_of, publishing}
use internal_jwt_handling.Tests.Tokens.{read, reads, signer}
use internal_jwt_handling.Tests.Parsing.{parser, agrees}
use internal_jwt_handling.Tests.Agreeing.{generator, issuer, signing, token_of}

-- A service token on behalf of "user-1", in a chain of its own.
abbrev config : Config
config = record {
  issuer = "gw";
  audience = "billing";
  token_use = "service";
  tenant_public_id = "t1";
  event_public_id = "";
  scope = "a b";
  origin_sub = "user-1";
  txn = "txn-9";
  subject = "";
  key_id = "k1";
  ttl = pos 0;
}

abbrev minted : Claims
minted = record {
  registered = record {
    issuer = "gw";
    subject = "test-caller";
    audience = "billing" ∷ [];
    expires_at = some (126 * second);
    not_before = some (6 * second);
    issued_at = some (6 * second);
    id = "id";
  };
  token_use = "service";
  client_id = "test-caller";
  txn = "txn-9";
  scope = "a b";
  source_jti = "test-source-jti";
  source_expires_at = none;
  origin_sub = "user-1";
  tenant_public_id = "t1";
  event_public_id = "";
}

abbrev output : Output
output = record { token = "signed"; claims = minted; jwks = record { keys = marked ∷ [] } }

generating : Unit {0}
unfolding generate Build.new with_ttl Issue.issue service_context machine_origin_context or_default
    signing publishing issuer_jwks publish key_provider
generating = tt

generated : generate (signer minted) clock ecdsa public_of generator config 5 ≡ (ok output, 7)
unfolding generating
generated = refl

named : generator.key_id ≢ ""
named = ground (arith, eq_iff "k1" "")

generate-Generates_example : Generates (signer minted) clock ecdsa public_of generator config output
generate-Generates_example =
    generate-Generates (signer minted) clock ecdsa public_of identifiers_filled generator config
      output 5 7 named generated

abbrev keyed : Issuer ℕ ℕ Bool
keyed = record issuer { settings = record issuer.settings { keys = key_provider generator } }

sign_unchecked-issue_iff_example :
    (sign_unchecked (signer converted) generator converted 5 ≡ (ok "signed", 5))
    ↔ (issue (signer converted) keyed converted 5 ≡ (ok (token_of converted), 5))
sign_unchecked-issue_iff_example =
    sign_unchecked-issue_iff (signer converted) generator named Bool keyed converted "orders"
      "signed" 5 5 refl refl

abbrev settings : Settings ℕ Bool
settings = record {
  issuer_id = "gw";
  audience = "billing";
  keys = keys_in (("k1", true) ∷ []);
  leeway = default_leeway;
  now = some clock;
}

abbrev verifier : Verifier ℕ Bool
verifier = record { settings = settings; parser = parser_options settings clock }

abbrev ready : IsReady verifier
ready = record {
  leeway = omega arith;
  clock = clock;
  set = refl;
  es256_alone = refl;
  named = issuer_named;
  own_issuer = refl;
  needs_exp = refl;
  checks_iat = refl;
  same_leeway = refl;
  same_clock = refl;
}

minted_current : IsCurrent default_leeway (20 * second) minted
minted_current =
    Spans-IsCurrent (signer minted).numeric_date (6 * second) (126 * second) (20 * second)
      default_leeway minted truncates (omega arith)
      (record { expires_at = refl; not_before = refl; issued_at = refl }) (omega arith)
      (omega arith)

jwks_read : parse_from ecdsa [] (marked ∷ []) ≡ ok (("k1", true) ∷ [])
jwks_read =
    generator_jwks-parse_from ecdsa public_of standard generator output.jwks
      (unfold generating generator_jwks in refl)

verify_for-generate_example :
    verify_for (parser minted) verifier "signed" "billing" 20 ≡ (ok minted, 20)
verify_for-generate_example =
    verify_for-generate ecdsa public_of standard (signer minted) (parser minted) read reads
      (agrees minted) identifiers_filled clock generator config output 5 7 verifier ready
      (("k1", true) ∷ []) 20 named generated jwks_read refl refl minted_current
