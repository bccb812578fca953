-- ===== src/Verifier/Failures.antt =====
-- Which failures of `verify` (verifier/verifier.go) say that a key could not be resolved, the ones
-- that a caller may retry, and which say that the token is to blame.
use internal_jwt_handling.Base.{
  String, Option, none, some, true, false, ◌≡◌, ◌≢◌, ◌↔◌, ◌⊎◌, inl, inr, arith, eq_iff,
  Option-cases,
}
use internal_jwt_handling.Errors.{Error, errors_is, is_key_resolution, is_unknown_key_id}
use internal_jwt_handling.Strings.{equal_fold}
use internal_jwt_handling.Result.{Result, ok, err}
use internal_jwt_handling.Io.Inversion.{outcome}
use internal_jwt_handling.Claims.{Claims, validate_binding}
use internal_jwt_handling.Verifier.ClaimChecks.{
  validate_claims, match_audience, validate_registered_claims, validate_common_claims,
  validate_origin_claims,
}
use internal_jwt_handling.Verifier.Build.{
  Header, as_text, KeyResolver, Parser, Verifier, token_type_jwt,
}
use internal_jwt_handling.Verifier.Verify.{
  validate_token_type, resolver_error, parser_error, key_func, verify_for,
}

-- An error that is none of the key resolution's.
abbrev Blames : {A : Type 0} → Result A → Type 0
Blames (ok a) = Unit
Blames (err e) = errors_is e is_key_resolution ≡ false

match_audience-Blames : (got : _) (want : String) → Blames (match_audience got want)
unfolding match_audience
match_audience-Blames got want = ground arith

validate_registered_claims-Blames : (c : Claims) → Blames (validate_registered_claims c)
unfolding validate_registered_claims
validate_registered_claims-Blames c = ground arith

validate_common_claims-Blames : (c : Claims) → Blames (validate_common_claims c)
unfolding validate_common_claims
validate_common_claims-Blames c = ground arith

validate_binding-Blames : (u t e : String) → Blames (validate_binding u t e)
unfolding validate_binding
validate_binding-Blames u t e = ground arith

validate_origin_claims-Blames : (c : Claims) → Blames (validate_origin_claims c)
unfolding validate_origin_claims
validate_origin_claims-Blames c = ground arith

validate_claims-Blames : (audience : String) (c : Claims) → Blames (validate_claims audience c)
unfolding validate_claims
validate_claims-Blames audience c = ground (
  arith,
  match_audience-Blames c.audience audience,
  validate_registered_claims-Blames c,
  validate_common_claims-Blames c,
  validate_binding-Blames c.token_use c.tenant_public_id c.event_public_id,
  validate_origin_claims-Blames c,
)

-- The call failed, with an error of the key resolution.
abbrev pub Unresolved : {A : Type 0} → Result A → Type 0
Unresolved (ok a) = ⊥
Unresolved (err e) = errors_is e is_key_resolution ≡ true

-- The resolver gave no answer: no key at all, or an error other than that the kid is unknown.
abbrev pub NoAnswer : {A : Type 0} → Result (Option A) → Type 0
NoAnswer (ok none) = Unit
NoAnswer (ok (some key)) = ⊥
NoAnswer (err e) = (errors_is e is_key_resolution ≡ true) ⊎ (errors_is e is_unknown_key_id ≡ false)

-- A header that names a key: its typ is JWT in any case, and its kid a non-empty text.
pub record Names (header : Header) (kid : String) : Type 0 where
  pub typ : String
  pub has_typ : as_text (header "typ") ≡ some typ
  pub is_jwt : equal_fold typ token_type_jwt ≡ true
  pub has_kid : as_text (header "kid") ≡ some kid
  pub named : kid ≢ ""

module _ {W Public : Type 0} where
  key_func_sound :
      (keys : KeyResolver W Public) (header : Header) (w : W)
      → Unresolved (key_func keys header w).0
      → (kid : String) × Names header kid × NoAnswer (keys kid w).0
  unfolding key_func resolver_error validate_token_type
  key_func_sound keys header w h = elim (Option-cases (as_text (header "typ"))) [
    | inl missed ↦ absurd (ground arith)
    | inr (typ, has_typ) ↦ elim (Option-cases (as_text (header "kid"))) [
      | inl missed ↦ absurd (ground arith)
      | inr (kid, has_kid) ↦
          let names : Names header kid = record {
            typ = typ;
            has_typ = has_typ;
            is_jwt = ground arith;
            has_kid = has_kid;
            named = ground (arith, eq_iff kid "");
          } in
          (kid, names, ground (arith, eq_iff kid ""))
    ]
  ]

  key_func_complete :
      (keys : KeyResolver W Public) (header : Header) (w : W) (kid : String)
      → Names header kid
      → NoAnswer (keys kid w).0
      → Unresolved (key_func keys header w).0
  unfolding key_func resolver_error validate_token_type
  key_func_complete keys header w kid n a = ground (arith, eq_iff kid "")

  -- The key function fails with an error of the key resolution exactly when the header names a key
  -- and the resolver gives no answer for it. An unknown kid is an answer.
  pub key_func-Unresolved_iff :
      (keys : KeyResolver W Public) (header : Header) (w : W)
      → Unresolved (key_func keys header w).0
        ↔ ((kid : String) × Names header kid × NoAnswer (keys kid w).0)
  key_func-Unresolved_iff keys header w =
      (key_func_sound keys header w, λ o. key_func_complete keys header w o.0 o.1 o.2)

parser_error-key_resolution :
    (e : Error) → errors_is (parser_error e) is_key_resolution ≡ errors_is e is_key_resolution
unfolding parser_error
parser_error-key_resolution e = ground arith

module _ {W Public : Type 0} (parse : Parser W Public) where
  -- `verify` fails with an error of the key resolution exactly when the token is not empty and the
  -- parser fails with one: no fault of the token or of its claims reads as a missing key.
  pub verify_for-Unresolved_iff :
      (v : Verifier W Public) (token audience : String) (w : W)
      → Unresolved (verify_for parse v token audience w).0
        ↔ ((token ≢ "") × Unresolved (parse v.parser token (key_func v.keys) w).0)
  unfolding verify_for
  verify_for-Unresolved_iff v token audience w =
      elim (outcome (parse v.parser token (key_func v.keys) w)) [
        | inl (c, u, e) ↦ ground (arith, eq_iff token "", validate_claims-Blames audience c)
        | inr (x, u, e) ↦ ground (arith, eq_iff token "", parser_error-key_resolution x)
      ]
