-- ===== src/Tests/Rotating.antt =====
-- A key rotation at concrete inputs: "k2" signs, "k1" is still published.
use internal_jwt_handling.Base.{
  ℕ, ◌*◌, [], ◌∷◌, none, some, ◌≡◌, refl, inl, arith, eq_iff, Bool, true,
}
use internal_jwt_handling.Time.{second}
use internal_jwt_handling.Result.{ok}
use internal_jwt_handling.Jwk.{Jwks}
use internal_jwt_handling.Issuer.Model.{KeySet, Issuer}
use internal_jwt_handling.Issuer.Publish.{publish, issuer_jwks}
use internal_jwt_handling.Jwks.Model.{Network}
use internal_jwt_handling.Jwks.Healthy.{Asks}
use internal_jwt_handling.Verifier.Build.{Settings, Verifier, parser_options}
use internal_jwt_handling.Verifier.Verify.{verify_for}
use internal_jwt_handling.Verifier.Trust.{IsReady}
use internal_jwt_handling.Jwks.Model.{Cache}
use internal_jwt_handling.Agreement.Served.{resolver_of, IsPublished}
use internal_jwt_handling.Agreement.Rotated.{verify_for-rotated}
use internal_jwt_handling.Tests.Fixtures.{issuer_named, external_input}
use internal_jwt_handling.Tests.Issuing.{identifiers_filled, truncates, converted}
use internal_jwt_handling.Tests.Publishing.{
  ecdsa, standard, set, marked, jwk, blank, public_of, publishing,
}
use internal_jwt_handling.Tests.Tokens.{read, reads, signer}
use internal_jwt_handling.Tests.Parsing.{parser, agrees}
use internal_jwt_handling.Tests.Agreeing.{issuer, token_of, converted_signed}
use internal_jwt_handling.Tests.Connecting.{net, cache, cached_clock, cached_settings}

abbrev rotated : KeySet ℕ Bool
rotated = record {
  signing = record { key_id = "k2"; key = some 0 };
  published = record { key_id = "k1"; key = some true } ∷ [];
}

abbrev later : Issuer ℕ ℕ Bool
later = record issuer { settings = record issuer.settings { keys = λ w. (ok rotated, w) } }

abbrev document : Jwks
document = record { keys = jwk "k2" blank ∷ marked ∷ [] }

published : issuer_jwks ecdsa public_of later 6 ≡ (ok document, 6)
unfolding publishing issuer_jwks publish
published = refl

abbrev turned : Network ℕ
turned = record net { unmarshal = λ bytes. ok document }

abbrev settings : Settings (ℕ × Cache Bool) Bool
settings = record cached_settings { keys = resolver_of ecdsa turned }

abbrev verifier : Verifier (ℕ × Cache Bool) Bool
verifier = record { settings = settings; parser = parser_options settings cached_clock }

abbrev ready : IsReady verifier
ready = record {
  leeway = omega arith;
  clock = cached_clock;
  set = refl;
  es256_alone = refl;
  named = issuer_named;
  own_issuer = refl;
  needs_exp = refl;
  checks_iat = refl;
  same_leeway = refl;
  same_clock = refl;
}

endpoint : IsPublished ecdsa turned cache 20 document
endpoint = record {
  made = refl;
  response = record {
    status_code = 200;
    status = "200 OK";
    body = record { bytes = 1 ∷ []; fault = none };
  };
  received = 20;
  sent = refl;
  status = refl;
  whole = refl;
  fits = omega arith;
  limited = omega arith;
  written = refl;
}

first_time : Asks ecdsa turned cache "k1" (20 * second)
first_time = record {
  named = ground (arith, eq_iff "k1" "");
  wanting = inl (omega arith);
  rested = inl refl;
}

verify_for-rotated_example :
    (verify_for (parser converted) verifier "signed" "orders" (20, cache)).0 ≡ ok converted
verify_for-rotated_example =
    verify_for-rotated ecdsa turned public_of standard (signer converted) (parser converted) read
      reads (agrees converted) truncates identifiers_filled issuer later verifier ready refl set
      rotated 1 0 document external_input (token_of converted) 5 7 6 6 20 cache refl (λ w. refl)
      refl refl refl (inl (refl, refl)) converted_signed published endpoint first_time (omega arith)
      (omega arith) (omega arith)
