-- ===== src/Tests/Verifying.antt =====
-- The verifier package and the binding rule at concrete inputs.
use internal_jwt_handling.Base.{
  ℕ, ◌≡◌, ◌≢◌, ◌↔◌, refl, [], List, ◌∷◌, ◌*◌, some, String, arith, contains_iff, contains, inl, inr,
  subst, Bool-cases,
}
use internal_jwt_handling.Base.Int.{pos}
use internal_jwt_handling.Time.{second}
use internal_jwt_handling.Result.{ok}
use internal_jwt_handling.Io.{Io, Clock}
use internal_jwt_handling.Io.Inversion.{outcome}
use internal_jwt_handling.Claims.{Claims, validate_binding}
use internal_jwt_handling.Claims.Binding.{IsBound, validate_binding-IsBound_iff}
use internal_jwt_handling.Strings.{equal_fold, cut_space, contains_space}
use internal_jwt_handling.Verifier.Build.{
  Header, ParserOptions, Settings, Verifier, VerifierOption, parser_options, with_leeway,
  with_clock, new_verifier_for,
}
use internal_jwt_handling.Verifier.ClaimChecks.{
  validate_claims, match_audience, validate_registered_claims, validate_common_claims,
  validate_origin_claims,
}
use internal_jwt_handling.Verifier.WellFormed.{IsInternal, validate_claims-IsInternal_iff}
use internal_jwt_handling.Verifier.Bearer.{bearer_token, IsBearer, bearer_token-IsBearer_iff}
use internal_jwt_handling.Verifier.Verify.{key_func, verify_for}
use internal_jwt_handling.Verifier.Outcomes.{verify_for-eq-ok_iff}
use internal_jwt_handling.Verifier.Trust.{
  IsReady, Parsed, IsTrusted, new_verifier_for-IsReady, with_leeway-Keeps, with_clock-Keeps,
  verify_for-IsTrusted,
}
use internal_jwt_handling.Tests.Fixtures.{
  tenant_claims, clock, verifier_settings, keys, header, claims_at, parse, verifier,
}

checks : Unit {0}
unfolding validate_claims match_audience validate_registered_claims validate_common_claims
    validate_binding validate_origin_claims
checks = tt

accepted : validate_claims "orders" tenant_claims ≡ ok tenant_claims
unfolding checks
accepted = refl

bearer_lower : bearer_token "bearer abc" ≡ ok "abc"
unfolding bearer_token equal_fold cut_space contains_space
bearer_lower = refl

validate_binding-IsBound_iff_example :
    (validate_binding "service" "t1" "" ≡ ok tt) ↔ IsBound "service" "t1" ""
validate_binding-IsBound_iff_example = validate_binding-IsBound_iff "service" "t1" ""

validate_claims-IsInternal_iff_example :
    (validate_claims "orders" tenant_claims ≡ ok tenant_claims) ↔ IsInternal "orders" tenant_claims
validate_claims-IsInternal_iff_example = validate_claims-IsInternal_iff "orders" tenant_claims

bearer_token-IsBearer_iff_example :
    (bearer_token "bearer abc" ≡ ok "abc") ↔ IsBearer "bearer abc" "abc"
bearer_token-IsBearer_iff_example = bearer_token-IsBearer_iff "bearer abc" "abc"

verify_for-eq-ok_iff_example :
    (verify_for parse verifier "token" "orders" 5 ≡ (ok tenant_claims, 5)) ↔ (
      ◌≢◌ {A = String} "token" ""
      × (parse verifier.parser "token" (key_func keys) 5 ≡ (ok tenant_claims, 5))
      × IsInternal "orders" tenant_claims)
verify_for-eq-ok_iff_example =
    verify_for-eq-ok_iff parse verifier "token" "orders" 5 5 tenant_claims

built : new_verifier_for clock "gw" "orders" (some keys) [] ≡ ok verifier
unfolding new_verifier_for
built = refl

-- A verifier with both options.
abbrev options : List (VerifierOption ℕ ℕ)
options = with_leeway (pos (60 * second)) ∷ with_clock (some clock) ∷ []

abbrev patient_settings : Settings ℕ ℕ
patient_settings = record verifier_settings { leeway = pos (60 * second) }

abbrev patient : Verifier ℕ ℕ
patient = record { settings = patient_settings; parser = parser_options patient_settings clock }

patient_built : new_verifier_for clock "gw" "orders" (some keys) options ≡ ok patient
unfolding new_verifier_for with_leeway with_clock
patient_built = refl

new_verifier_for-IsReady_example : IsReady patient
new_verifier_for-IsReady_example =
    new_verifier_for-IsReady clock "gw" "orders" (some keys) options patient
      (with_leeway-Keeps (pos (60 * second)), (with_clock-Keeps (some clock), tt)) patient_built

-- Every token counts as signed.
abbrev Signed : String → String → ℕ → Type 0
Signed token method key = Unit

parses :
    (o : ParserOptions ℕ) (token : String) (find : Header → Io ℕ ℕ) (w w' : ℕ) (c : Claims)
    → parse o token find w ≡ (ok c, w')
    → Parsed Signed o token find w c
parses o token find w w' c h = elim (outcome (find header w)) [
  | inr (e, u, lost) ↦ absurd (ground arith)
  | inl (key, u, found) ↦ elim (Bool-cases (contains o.valid_methods "ES256")) [
    | inr other ↦ absurd (ground arith)
    | inl listed ↦
        let same : claims_at o u ≡ c = ground arith in
        subst (Parsed Signed o token find w) same (record {
          header = header;
          key = key;
          method = "ES256";
          after = u;
          found = found;
          valid_method = λ r. (contains_iff o.valid_methods "ES256").0 listed;
          signature = tt;
          issuer = λ r. refl;
          expires = λ r. cc;
          read_at = u;
          checked = record {
            not_expired = λ exp e. ground arith;
            begun = λ nbf e. ground arith;
            issued = λ on iat e. ground arith;
          };
        })
  ]
]

token_accepted : (verify_for parse verifier "token" "orders" 5).0 ≡ ok (claims_at verifier.parser 5)
unfolding verify_for key_func equal_fold checks
token_accepted = refl

verify_for-IsTrusted_example :
    (c : Clock ℕ) × (verifier.now ≡ some c)
    × IsTrusted Signed verifier c "orders" "token" 5 (claims_at verifier.parser 5)
unfolding verify_for key_func equal_fold checks
verify_for-IsTrusted_example =
    verify_for-IsTrusted Signed parse parses clock "gw" "orders" (some keys) [] verifier "token"
      "orders" 5 5 (claims_at verifier.parser 5) tt built refl
