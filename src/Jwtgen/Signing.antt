-- ===== src/Jwtgen/Signing.antt =====
-- SignUnchecked of jwtgen/jwtgen.go against the signing of the issuer package.
use internal_jwt_handling.Base.{String, List, [], ◌∷◌, ◌≡◌, ◌≢◌, ◌↔◌, refl, arith, eq_iff, inl, inr}
use internal_jwt_handling.Errors.{sentinel, wrap, issuer, IssuerError}
use internal_jwt_handling.Time.{Time}
use internal_jwt_handling.Result.{ok}
use internal_jwt_handling.Io.{map_error}
use internal_jwt_handling.Io.Inversion.{outcome}
use internal_jwt_handling.Wire.{Payload, encode}
use internal_jwt_handling.Claims.{Claims}
use internal_jwt_handling.Issuer.Model.{Outside, Issuer}
use internal_jwt_handling.Issuer.SignedClaims.{
  SignedClaims, with_audience, with_audiences, new_signed_claims, payload,
}
use internal_jwt_handling.Issuer.Issue.{sign_with, issue}
use internal_jwt_handling.Jwtgen.Unchecked.{new_unchecked_claims, unchecked_payload}
use internal_jwt_handling.Jwtgen.Generator.{Generator, key_provider, sign_unchecked}

wire_agrees :
    (cut : Time → Time) (c : Claims) (audiences : List String) (s : SignedClaims)
    → c.audience ≡ audiences
    → with_audiences c audiences ≡ ok s
    → unchecked_payload cut (new_unchecked_claims c) ≡ payload cut s
unfolding unchecked_payload new_unchecked_claims payload encode
wire_agrees cut c [] s e h = cc
wire_agrees cut c (a ∷ []) s e h = let same : with_audience c a ≡ s = cc in rw (← same, e) refl
wire_agrees cut c (a ∷ b ∷ more) s e h = cc

-- Where newSignedClaims gives a wire form, the unchecked one has the same members.
pub unchecked_payload-eq-payload :
    (cut : Time → Time) (c : Claims) (s : SignedClaims)
    → new_signed_claims c ≡ ok s
    → unchecked_payload cut (new_unchecked_claims c) ≡ payload cut s
unfolding new_signed_claims
unchecked_payload-eq-payload cut c s h = wire_agrees cut c c.audience s refl h

new_signed_claims-one :
    (c : Claims) (a : String) → c.audience ≡ a ∷ [] → new_signed_claims c ≡ ok (with_audience c a)
unfolding new_signed_claims
new_signed_claims-one c a e = rw e refl

module _ {W Private : Type 0} (out : Outside W Private) (g : Generator Private)
    (named : g.key_id ≢ "") (Public : Type 0) where
  pub sign_with-key_provider :
      (p : Payload) (w : W)
      → sign_with out (key_provider {Public = Public} g) p w
        ≡ map_error
            (wrap (sentinel (issuer IssuerError.sign)))
            (out.signed_string g.key_id g.key p)
            w
  unfolding sign_with key_provider
  sign_with-key_provider p w = ground (arith, eq_iff g.key_id "")

  -- For a claim set with one audience, SignUnchecked returns a token exactly when an issuer with the
  -- generator's key signs one for these claims, and it is the same token.
  pub sign_unchecked-issue_iff :
      (i : Issuer W Private Public) (c : Claims) (a token : String) (w w' : W)
      → i.keys ≡ key_provider g
      → c.audience ≡ a ∷ []
      → (sign_unchecked out g c w ≡ (ok token, w'))
        ↔ (issue out i c w ≡ (ok (record { token = token; claims = c }), w'))
  unfolding sign_unchecked issue
  sign_unchecked-issue_iff i c a token w w' keys one =
      let wire = new_signed_claims-one c a one in
      let p = payload out.numeric_date (with_audience c a) in
      let same = unchecked_payload-eq-payload out.numeric_date c (with_audience c a) wire in
      rw (same, wire, keys, sign_with-key_provider p w)
        (elim (outcome (out.signed_string g.key_id g.key p w)) [
          | inl (t, u, e) ↦ ground arith
          | inr (x, u, e) ↦ ground arith
        ])
