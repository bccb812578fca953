-- ===== src/Agreement/Minted.antt =====
-- The output of jwtgen/jwtgen.go: its JWKS verifies its token.
use internal_jwt_handling.Base.{
  String, [], ◌∷◌, some, ◌≡◌, ◌≢◌, refl, sym, subst, arith, eq_refl, ap, ◌∙◌, inl, inr,
}
use internal_jwt_handling.Result.{Result, ok}
use internal_jwt_handling.Result.Inversion.{result_cases}
use internal_jwt_handling.Io.{Clock}
use internal_jwt_handling.Jwk.{Jwks, Ecdsa, new_jwk}
use internal_jwt_handling.Jwk.RoundTrip.{IsStandard, public_key-new_jwk}
use internal_jwt_handling.Wire.{Payload}
use internal_jwt_handling.Wire.RoundTrip.{ReadsRegistered}
use internal_jwt_handling.Wire.Dates.{cut_claims, cut_claims-IsDated}
use internal_jwt_handling.Claims.{RegisteredClaims}
use internal_jwt_handling.Issuer.Model.{Outside}
use internal_jwt_handling.Jwks.Model.{KeyMap, lookup}
use internal_jwt_handling.Jwks.Fetch.{parse_from}
use internal_jwt_handling.Jwks.Documents.{parse_from-Holds_iff}
use internal_jwt_handling.Jwtgen.Generator.{Config, Output, Generator, generator_jwks}
use internal_jwt_handling.Jwtgen.Generate.{generate}
use internal_jwt_handling.Jwtgen.Generated.{generate-Generates}
use internal_jwt_handling.Verifier.Build.{KeyResolver, Parser, Verifier}
use internal_jwt_handling.Verifier.Verify.{verify_for}
use internal_jwt_handling.Verifier.ClaimChecks.{validate_claims}
use internal_jwt_handling.Verifier.WellFormed.{validate_claims-IsInternal_iff}
use internal_jwt_handling.Verifier.Trust.{IsCurrent, IsReady}
use internal_jwt_handling.Agreement.{Agrees}
use internal_jwt_handling.Agreement.Accepted.{verify_for-sign_unchecked}

-- A KeyResolver that answers from a map.
abbrev pub keys_in : {V Public : Type 0} → KeyMap Public → KeyResolver V Public
keys_in keys kid v = (ok (lookup kid keys), v)

module _ {Private Public : Type 0} (ecdsa : Ecdsa Public) (public_of : Private → Public)
    (standard : IsStandard ecdsa) where
  -- A generator's JWKS is read by parseKeys as the public half of its key, under its kid.
  pub generator_jwks-parse_from :
      (g : Generator Private) (document : Jwks)
      → generator_jwks ecdsa public_of g ≡ ok document
      → parse_from ecdsa [] document.keys ≡ ok ((g.key_id, public_of g.key) ∷ [])
  unfolding generator_jwks
  generator_jwks-parse_from g document h =
      elim (result_cases (new_jwk ecdsa g.key_id (some (public_of g.key)))) [
        | inr (e, bad) ↦ absurd (ground arith)
        | inl (j, made) ↦
            let (read, named) =
              public_key-new_jwk ecdsa standard g.key_id (public_of g.key) j made in
            let all_keys : j ∷ [] ≡ document.keys = ground arith in
            subst (λ ks. parse_from ecdsa [] ks ≡ ok ((g.key_id, public_of g.key) ∷ [])) all_keys
              ((parse_from-Holds_iff ecdsa (j ∷ []) ((g.key_id, public_of g.key) ∷ [])).1
                ((sym named, read, tt), ((λ m. m), tt)))
      ]

  module _ {W V : Type 0} (out : Outside W Private) (parse : Parser V Public)
      (read : Payload → Result RegisteredClaims) (reads : ReadsRegistered read)
      (agrees : Agrees out parse read public_of)
      (filled : (w : W) (s : String) → (out.new_v7 w).0 ≡ ok s → s ≢ "")
      (system_clock : Clock W) where
    -- The token of an output of Generate is accepted, with the output's claims, by any verifier of
    -- the configured issuer, for the configured audience, whose keys are those that parseKeys reads
    -- from the output's own JWKS, as long as the claims are current by its clock and leeway: given
    -- that the generator has a kid, that a UUID is not empty, that crypto/ecdsa is as documented, and
    -- that golang-jwt reads what it has signed.
    pub verify_for-generate :
        (g : Generator Private) (config : Config) (output : Output) (w w' : W)
        (x : Verifier V Public) (ready : IsReady x) (keys : KeyMap Public) (v : V)
        → g.key_id ≢ ""
        → generate out system_clock ecdsa public_of g config w ≡ (ok output, w')
        → parse_from ecdsa [] output.jwks.keys ≡ ok keys
        → x.keys ≡ keys_in keys
        → x.issuer_id ≡ config.issuer
        → IsCurrent x.leeway (ready.clock v).0 output.claims
        → verify_for parse x output.token config.audience v ≡ (ok output.claims, (ready.clock v).1)
    unfolding lookup
    verify_for-generate g config output w w' x ready keys v named h read_keys resolves same
          current =
        let o =
          generate-Generates out system_clock ecdsa public_of filled g config output w w' named h in
        let read_back = generator_jwks-parse_from g output.jwks o.jwks in
        let the_keys : keys ≡ (g.key_id, public_of g.key) ∷ [] = cc in
        let found : lookup g.key_id keys ≡ some (public_of g.key) =
          rw the_keys (rw (eq_refl g.key_id) refl) in
        let resolved : x.keys g.key_id v ≡ (ok (some (public_of g.key)), v) =
          ap (λ f. f g.key_id v) resolves ∙ ap (λ k. (ok k, v)) found in
        let uncut : cut_claims out.numeric_date output.claims ≡ output.claims =
          cut_claims-IsDated out.numeric_date agrees.settled output.claims o.carries.dated in
        verify_for-sign_unchecked out parse read public_of reads agrees x ready g output.claims
          output.token config.audience o.before o.after v v o.signed named
          (o.carries.issuer ∙ sym same) o.carries.expires resolved
          (subst (IsCurrent x.leeway (ready.clock v).0) (sym uncut) current)
        ∙ ap (λ c. (validate_claims config.audience c, (ready.clock v).1)) uncut
        ∙ ap (λ r. (r, (ready.clock v).1))
            ((validate_claims-IsInternal_iff config.audience output.claims).1 o.carries.internal)
