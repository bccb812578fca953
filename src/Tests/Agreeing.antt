-- ===== src/Tests/Agreeing.antt =====
-- Issuing and verifying together at concrete inputs.
use internal_jwt_handling.Base.{ℕ, ◌*◌, ◌+◌, some, ◌≡◌, refl, arith, eq_iff, Bool, ◌==◌}
use internal_jwt_handling.Base.Int.{pos}
use internal_jwt_handling.Time.{second}
use internal_jwt_handling.Result.{ok}
use internal_jwt_handling.Wire.{encode}
use internal_jwt_handling.Claims.{Claims}
use internal_jwt_handling.Issuer.Model.{Issuer, Issued}
use internal_jwt_handling.Issuer.SignedClaims.{payload}
use internal_jwt_handling.Issuer.Issue.{
  issue_from_external, issue_user_origin_service, issue_machine_origin_service,
}
use internal_jwt_handling.Jwtgen.Unchecked.{new_unchecked_claims, unchecked_payload}
use internal_jwt_handling.Verifier.Build.{
  KeyResolver, Settings, Verifier, parser_options, default_leeway,
}
use internal_jwt_handling.Verifier.Verify.{verify_for}
use internal_jwt_handling.Verifier.Trust.{IsReady}
use internal_jwt_handling.Verifier.ClaimChecks.{validate_claims}
use internal_jwt_handling.Verifier.Trust.{IsCurrent}
use internal_jwt_handling.Jwtgen.Generator.{Generator, sign_unchecked}
use internal_jwt_handling.Wire.Claims.{decode_claims}
use internal_jwt_handling.Wire.Dates.{cut_claims}
use internal_jwt_handling.Wire.RoundTrip.{decode_claims-unchecked_payload}
use internal_jwt_handling.Agreement.Times.{Spans-IsCurrent}
use internal_jwt_handling.Agreement.Accepted.{verify_for-sign_unchecked}
use internal_jwt_handling.Agreement.Issued.{
  Shares, verify_for-issue_from_external, verify_for-issue_user_origin_service,
  verify_for-issue_machine_origin_service,
}
use internal_jwt_handling.Tests.Fixtures.{
  issuer_named, clock, external_input, user_input, machine_input,
}
use internal_jwt_handling.Tests.Issuing.{
  derivations, identifiers_filled, truncates, converted, reissued, batch,
}
use internal_jwt_handling.Tests.Publishing.{set, public_of}
use internal_jwt_handling.Tests.Tokens.{read, reads, to_second, signer}
use internal_jwt_handling.Tests.Parsing.{parser, agrees}

-- The verifier runs with its own clock, a number of seconds too.
abbrev pub issuer : Issuer ℕ ℕ Bool
issuer = record {
  settings = record {
    issuer_id = "gw";
    keys = λ w. (ok set, w);
    ttl = pos (120 * second);
    now = some clock;
  };
  clock = clock;
}

abbrev keys : KeyResolver ℕ Bool
keys kid v = (ok (some (kid == "k1")), v)

abbrev pub settings : Settings ℕ Bool
settings = record {
  issuer_id = "gw";
  audience = "orders";
  keys = keys;
  leeway = default_leeway;
  now = some clock;
}

abbrev pub verifier : Verifier ℕ Bool
verifier = record { settings = settings; parser = parser_options settings clock }

abbrev pub ready : IsReady verifier
ready = record {
  leeway = omega arith;
  clock = clock;
  set = refl;
  es256_alone = refl;
  named = issuer_named;
  own_issuer = refl;
  needs_exp = refl;
  checks_iat = refl;
  same_leeway = refl;
  same_clock = refl;
}

unfoldable pub signing : Unit {0}
unfolding derivations issue_user_origin_service issue_machine_origin_service payload encode
    unchecked_payload new_unchecked_claims
signing = tt

abbrev pub token_of : Claims → Issued
token_of c = record { token = "signed"; claims = c }

pub converted_signed :
    issue_from_external (signer converted) issuer external_input 5 ≡ (ok (token_of converted), 7)
unfolding signing
converted_signed = refl

reissued_signed :
    issue_user_origin_service (signer reissued) issuer user_input 7 ≡ (ok (token_of reissued), 8)
unfolding signing
reissued_signed = refl

batch_signed :
    issue_machine_origin_service (signer batch) issuer machine_input 7 ≡ (ok (token_of batch), 9)
unfolding signing
batch_signed = refl

pub shares :
    (c : Claims)
    → Shares
        (signer c)
        (parser (cut_claims to_second c))
        read
        public_of
        reads
        (agrees c)
        issuer
        verifier
        ready
        set
        1
        20
        20
shares c = record { issuer = refl; provided = λ w. refl; held = refl; resolved = refl }

verify_for-issue_from_external_example :
    verify_for (parser converted) verifier "signed" "orders" 20 ≡ (ok converted, 20)
verify_for-issue_from_external_example =
    verify_for-issue_from_external (signer converted) (parser converted) read public_of reads
      (agrees converted) issuer verifier ready truncates identifiers_filled external_input 5 7
      (token_of converted) 20 20 set 1 converted_signed (shares converted) (omega arith)
      (omega arith) (omega arith)

verify_for-issue_user_origin_service_example :
    verify_for (parser reissued) verifier "signed" "billing" 20 ≡ (ok reissued, 20)
verify_for-issue_user_origin_service_example =
    verify_for-issue_user_origin_service (signer reissued) (parser reissued) read public_of reads
      (agrees reissued) issuer verifier ready truncates identifiers_filled user_input 7 8
      (token_of reissued) 20 20 set 1 reissued_signed (shares reissued) (omega arith) (omega arith)

verify_for-issue_machine_origin_service_example :
    verify_for (parser batch) verifier "signed" "billing" 20 ≡ (ok batch, 20)
verify_for-issue_machine_origin_service_example =
    verify_for-issue_machine_origin_service (signer batch) (parser batch) read public_of reads
      (agrees batch) issuer verifier ready truncates identifiers_filled machine_input 7 9
      (token_of batch) 20 20 set 1 batch_signed (shares batch) (omega arith) (omega arith)

abbrev pub generator : Generator ℕ
generator = record { key_id = "k1"; key = 1 }

-- Its end is between two seconds.
abbrev ends_between : Claims
ends_between = record converted {
  registered = record converted.registered { expires_at = some (100 * second + 7) };
}

unchecked : sign_unchecked (signer ends_between) generator ends_between 5 ≡ (ok "signed", 5)
unfolding signing sign_unchecked
unchecked = refl

ends_between_current : IsCurrent default_leeway (20 * second) (cut_claims to_second ends_between)
ends_between_current =
    Spans-IsCurrent to_second (5 * second) (100 * second) (20 * second) default_leeway
      (cut_claims to_second ends_between) truncates (omega arith)
      (record { expires_at = refl; not_before = refl; issued_at = refl }) (omega arith)
      (omega arith)

-- The token is of another audience.
verify_for-sign_unchecked_example :
    verify_for (parser (cut_claims to_second ends_between)) verifier "signed" "billing" 20
    ≡ (validate_claims "billing" (cut_claims to_second ends_between), 20)
verify_for-sign_unchecked_example =
    verify_for-sign_unchecked (signer ends_between) (parser (cut_claims to_second ends_between))
      read public_of reads (agrees ends_between) verifier ready generator ends_between "signed"
      "billing" 5 5 20 20 unchecked (ground (arith, eq_iff "k1" "")) refl (ground arith) refl
      ends_between_current

-- A src_exp between two seconds is cut down.
abbrev between_seconds : Claims
between_seconds = record reissued { source_expires_at = some (3 * second + 7) }

decode_claims-unchecked_payload_example :
    decode_claims read (unchecked_payload to_second (new_unchecked_claims between_seconds))
    ≡ ok (record between_seconds { source_expires_at = some (3 * second) })
decode_claims-unchecked_payload_example =
    decode_claims-unchecked_payload read reads to_second between_seconds
