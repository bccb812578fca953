-- ===== src/Agreement/Accepted.antt =====
-- A token of issuer/issuer.go is accepted by verifier/verifier.go.
use internal_jwt_handling.Jwk.{algorithm}
use internal_jwt_handling.Base.{
  In, String, some, none, ◌≡◌, ◌≢◌, refl, sym, ap, ◌∙◌, subst, inl, inr, arith, eq_iff, true,
}
use internal_jwt_handling.Io.Inversion.{outcome}
use internal_jwt_handling.Wire.Claims.{decode_claims}
use internal_jwt_handling.Wire.Dates.{cut_date-there, cut_claims}
use internal_jwt_handling.Wire.RoundTrip.{decode_claims-unchecked_payload}
use internal_jwt_handling.Verifier.ClaimChecks.{validate_claims}
use internal_jwt_handling.Verifier.WellFormed.{validate_claims-IsInternal_iff}
use internal_jwt_handling.Jwtgen.Unchecked.{new_unchecked_claims, unchecked_payload}
use internal_jwt_handling.Jwtgen.Generator.{Generator, sign_unchecked}
use internal_jwt_handling.Strings.{equal_fold}
use internal_jwt_handling.Result.{Result, ok}
use internal_jwt_handling.Wire.{Payload}
use internal_jwt_handling.Wire.RoundTrip.{ReadsRegistered, decode_claims-payload}
use internal_jwt_handling.Claims.{Claims, RegisteredClaims}
use internal_jwt_handling.Issuer.Model.{Outside, Issuer, Issued}
use internal_jwt_handling.Issuer.SignedClaims.{payload}
use internal_jwt_handling.Issuer.Issue.Signing.{Signs}
use internal_jwt_handling.Verifier.Build.{KeyResolver, Parser, Verifier, token_type_jwt}
use internal_jwt_handling.Verifier.Verify.{key_func, verify_for}
use internal_jwt_handling.Verifier.WellFormed.{IsInternal}
use internal_jwt_handling.Verifier.Outcomes.{key_func-Offers_iff}
use internal_jwt_handling.Verifier.Trust.{IsCurrent, IsReady}
use internal_jwt_handling.Agreement.{header_of, Agrees}

jwt_is_jwt : equal_fold token_type_jwt token_type_jwt ≡ true
unfolding equal_fold
jwt_is_jwt = refl

sign_unchecked-signed :
    {W Private : Type 0} (out : Outside W Private) (g : Generator Private) (c : Claims) (w w' : W)
    (token : String)
    → sign_unchecked out g c w ≡ (ok token, w')
    → out.signed_string g.key_id g.key
        (unchecked_payload out.numeric_date (new_unchecked_claims c))
        w
      ≡ (ok token, w')
unfolding sign_unchecked
sign_unchecked-signed out g c w w' token h =
    let p = unchecked_payload out.numeric_date (new_unchecked_claims c) in
    elim (outcome (out.signed_string g.key_id g.key p w)) [
      | inl (t, u, e) ↦ ground arith
      | inr (y, u, e) ↦ absurd (ground arith)
    ]

-- The key function answers to the header that the issuer's tokens have.
key_func-header_of :
    {V Public : Type 0} (keys : KeyResolver V Public) (kid : String) (k : Public) (v v' : V)
    → kid ≢ ""
    → keys kid v ≡ (ok (some k), v')
    → key_func keys (header_of kid) v ≡ (ok k, v')
key_func-header_of keys kid k v v' named resolved =
    (key_func-Offers_iff keys (header_of kid) v v' k).1 (record {
      typ = token_type_jwt;
      kid = kid;
      has_typ = refl;
      is_jwt = jwt_is_jwt;
      has_kid = refl;
      named = named;
      resolved = resolved;
    })

module _ {W V Private Public : Type 0} (out : Outside W Private) (parse : Parser V Public)
    (read : Payload → Result RegisteredClaims) (public_of : Private → Public)
    (reads : ReadsRegistered read) (agrees : Agrees out parse read public_of) where
  module _ (x : Verifier V Public) (ready : IsReady x) where
    -- What `verify` makes of a token that golang-jwt has signed over a payload with an exp, under a
    -- kid for which the verifier's resolver has the other half of the key, and that is of the
    -- verifier's issuer and current: it answers as the claim checks do on the claims of the payload.
    pub verify_for-signed_string :
        (kid : String) (private : Private) (p : Payload) (token audience : String) (w w' : W)
        (c : Claims) (v v' : V)
        → out.signed_string kid private p w ≡ (ok token, w')
        → decode_claims read p ≡ ok c
        → kid ≢ ""
        → c.issuer ≡ x.issuer_id
        → c.expires_at ≢ none
        → x.keys kid v ≡ (ok (some (public_of private)), v')
        → IsCurrent x.leeway (ready.clock v').0 c
        → verify_for parse x token audience v ≡ (validate_claims audience c, (ready.clock v').1)
    unfolding verify_for
    verify_for-signed_string kid private p token audience w w' c v v' signed decoded named
          same_issuer expires resolved current =
        let found = key_func-header_of x.keys kid (public_of private) v v' named resolved in
        let timely : IsCurrent x.parser.leeway (x.parser.time_func v').0 c =
          subst (λ l. IsCurrent l (x.parser.time_func v').0 c) (sym ready.same_leeway)
            (subst (λ f. IsCurrent x.leeway (f v').0 c) (sym ready.same_clock) current) in
        let read_by_parser : parse x.parser token (key_func x.keys) v ≡ (ok c, (ready.clock v').1) =
          agrees.accepts kid private p token w w' c signed decoded x.parser (key_func x.keys) v v'
            (subst (In algorithm) (sym ready.es256_alone) (inl refl))
            (same_issuer ∙ sym ready.own_issuer) found expires timely
          ∙ ap (λ f. (ok c, (f v').1)) ready.same_clock in
        let filled = agrees.filled kid private p token w w' signed in
        ground (arith, eq_iff token "", filled, read_by_parser)

    -- A token that SignUnchecked makes of a claim set with an exp and of the verifier's issuer brings
    -- these claims, with their dates cut as golang-jwt cuts a date that it writes, to the claim
    -- checks: `verify` answers as they do, where the generator has a kid, the resolver has the public
    -- half of the generator's key under it, and the cut claims are current by the verifier's clock
    -- and leeway; given that golang-jwt reads what it has signed.
    pub verify_for-sign_unchecked :
        (g : Generator Private) (c : Claims) (token audience : String) (w w' : W) (v v' : V)
        → sign_unchecked out g c w ≡ (ok token, w')
        → g.key_id ≢ ""
        → c.issuer ≡ x.issuer_id
        → c.expires_at ≢ none
        → x.keys g.key_id v ≡ (ok (some (public_of g.key)), v')
        → IsCurrent x.leeway (ready.clock v').0 (cut_claims out.numeric_date c)
        → verify_for parse x token audience v
          ≡ (validate_claims audience (cut_claims out.numeric_date c), (ready.clock v').1)
    verify_for-sign_unchecked g c token audience w w' v v' h named same_issuer expires =
        verify_for-signed_string g.key_id g.key
          (unchecked_payload out.numeric_date (new_unchecked_claims c)) token audience w w'
          (cut_claims out.numeric_date c) v v' (sign_unchecked-signed out g c w w' token h)
          (decode_claims-unchecked_payload read reads out.numeric_date c) named same_issuer
          (cut_date-there out.numeric_date c.expires_at expires)

  module _ (i : Issuer W Private Public) (x : Verifier V Public) (ready : IsReady x) where
    -- A token that an issuer signs for the claim set of an internal JWT with an exp, whose dates
    -- are cut already, is accepted, with exactly these claims, by a verifier of the same issuer
    -- for its audience, whose resolver has the other half of the key that signed it and by whose
    -- clock and leeway it is current: given that golang-jwt reads what it has signed.
    pub verify_for-Signs :
        (audience : String) (c : Claims) (w w' : W) (issued : Issued) (v v' : V)
        (s : Signs out i c w w' issued)
        → IsInternal audience c
        → cut_claims out.numeric_date c ≡ c
        → c.issuer ≡ x.issuer_id
        → c.expires_at ≢ none
        → x.keys s.keys.signing.key_id v ≡ (ok (some (public_of s.private)), v')
        → IsCurrent x.leeway (ready.clock v').0 c
        → verify_for parse x issued.token audience v ≡ (ok c, (ready.clock v').1)
    verify_for-Signs audience c w w' issued v v' s internal cut same_issuer expires resolved
          current =
        verify_for-signed_string x ready s.keys.signing.key_id s.private
          (payload out.numeric_date s.signable) issued.token audience s.asked w' c v v' s.signed
          (decode_claims-payload read reads out.numeric_date c s.signable s.wire ∙ ap ok cut)
          s.named same_issuer expires resolved current
        ∙ ap (λ r. (r, (ready.clock v').1)) ((validate_claims-IsInternal_iff audience c).1 internal)
