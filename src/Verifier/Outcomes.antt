-- ===== src/Verifier/Outcomes.antt =====
-- When `verify` of verifier/verifier.go accepts a token, and which errors it answers with.
use internal_jwt_handling.Base.{
  String, some, true, ◌≡◌, ◌≢◌, ◌↔◌, inl, inr, eq_iff, arith, Option-cases,
}
use internal_jwt_handling.Strings.{equal_fold}
use internal_jwt_handling.Result.{ok}
use internal_jwt_handling.Io.Inversion.{outcome}
use internal_jwt_handling.Claims.{Claims}
use internal_jwt_handling.Verifier.ClaimChecks.{validate_claims}
use internal_jwt_handling.Verifier.WellFormed.{IsInternal, validate_claims-IsInternal_iff}
use internal_jwt_handling.Verifier.Build.{
  Header, as_text, KeyResolver, Parser, Verifier, token_type_jwt,
}
use internal_jwt_handling.Verifier.Verify.{key_func, verify_for}

validate_claims-eq-ok :
    (audience : String) (c d : Claims) → validate_claims audience c ≡ ok d → c ≡ d
unfolding validate_claims
validate_claims-eq-ok audience c d h = ground arith

module _ {W Public : Type 0} where
  -- What a header and a resolver have to offer for a key.
  pub record Offers (keys : KeyResolver W Public) (header : Header) (w w' : W) (key : Public)
      : Type 0 where
    pub typ : String
    pub kid : String
    pub has_typ : as_text (header "typ") ≡ some typ
    pub is_jwt : equal_fold typ token_type_jwt ≡ true
    pub has_kid : as_text (header "kid") ≡ some kid
    pub named : kid ≢ ""
    pub resolved : keys kid w ≡ (ok (some key), w')

  key_func_sound :
      (keys : KeyResolver W Public) (header : Header) (w w' : W) (key : Public)
      → key_func keys header w ≡ (ok key, w')
      → Offers keys header w w' key
  unfolding key_func
  key_func_sound keys header w w' key h = elim (Option-cases (as_text (header "typ"))) [
    | inl missed ↦ absurd (ground arith)
    | inr (typ, has_typ) ↦ elim (Option-cases (as_text (header "kid"))) [
      | inl missed ↦ absurd (ground arith)
      | inr (kid, has_kid) ↦ record {
        typ = typ;
        kid = kid;
        has_typ = has_typ;
        is_jwt = ground arith;
        has_kid = has_kid;
        named = ground (arith, eq_iff kid "");
        resolved = ground arith;
      }
    ]
  ]

  key_func_complete :
      (keys : KeyResolver W Public) (header : Header) (w w' : W) (key : Public)
      → Offers keys header w w' key
      → key_func keys header w ≡ (ok key, w')
  unfolding key_func
  key_func_complete keys header w w' key o = ground (arith, eq_iff o.kid "")

  -- The key function hands out a key exactly when the header's typ is JWT in any case, its kid is a
  -- non-empty text, and the resolver has a key under that kid.
  pub key_func-Offers_iff :
      (keys : KeyResolver W Public) (header : Header) (w w' : W) (key : Public)
      → (key_func keys header w ≡ (ok key, w')) ↔ Offers keys header w w' key
  key_func-Offers_iff keys header w w' key =
      (key_func_sound keys header w w' key, key_func_complete keys header w w' key)

module _ {W Public : Type 0} (parse : Parser W Public) where
  -- A token is accepted exactly when it is not empty, the parser reads the claims from it with the
  -- verifier's options and key function, and the claims are those of an internal JWT for the
  -- audience.
  pub verify_for-eq-ok_iff :
      (v : Verifier W Public) (token audience : String) (w w' : W) (c : Claims)
      → (verify_for parse v token audience w ≡ (ok c, w')) ↔ (
          (token ≢ "")
          × (parse v.parser token (key_func v.keys) w ≡ (ok c, w'))
          × IsInternal audience c)
  unfolding verify_for
  verify_for-eq-ok_iff v token audience w w' c =
      elim (outcome (parse v.parser token (key_func v.keys) w)) [
        | inl (d, u, e) ↦ ground (
          arith,
          eq_iff token "",
          validate_claims-eq-ok audience d c,
          validate_claims-IsInternal_iff audience c,
        )
        | inr (d, u, e) ↦ ground (arith, eq_iff token "")
      ]
