-- ===== src/Jwtgen/Generated.antt =====
-- What the method Generate of jwtgen/jwtgen.go returns.
use internal_jwt_handling.Base.{
  String, [], ◌∷◌, some, ◌≡◌, ◌≢◌, sym, subst, ap, ◌∙◌, arith, eq_iff, inl, inr,
}
use internal_jwt_handling.Result.{ok}
use internal_jwt_handling.Result.Inversion.{result_cases}
use internal_jwt_handling.Io.{Clock}
use internal_jwt_handling.Io.Inversion.{outcome}
use internal_jwt_handling.Jwk.{Jwks, Ecdsa, new_jwk}
use internal_jwt_handling.Claims.{token_use_service}
use internal_jwt_handling.Issuer.Model.{Outside, Issuer, Issued}
use internal_jwt_handling.Issuer.Build
use internal_jwt_handling.Issuer.Build.{with_ttl}
use internal_jwt_handling.Issuer.Build.Ready.{new-with_ttl}
use internal_jwt_handling.Issuer.Issue
use internal_jwt_handling.Issuer.Issue.Signing.{issue-Signs_iff}
use internal_jwt_handling.Base.Int.{pos, ◌<ℤ◌}
use internal_jwt_handling.Issuer.Publish.{publish_keys, publish, issuer_jwks}
use internal_jwt_handling.Jwtgen.Generator.{
  Config, Output, Generator, generator_jwks, key_provider, sign_unchecked,
}
use internal_jwt_handling.Jwtgen.Issue.{issue}
use internal_jwt_handling.Jwtgen.Generate.{ttl_of, generate}
use internal_jwt_handling.Jwtgen.Carries.{Carries}
use internal_jwt_handling.Jwtgen.Minted.{issue-Minted}
use internal_jwt_handling.Jwtgen.Signing.{sign_unchecked-issue_iff}

module _ {Private Public : Type 0} (ecdsa : Ecdsa Public) (public_of : Private → Public) where
  publish_keys-generator_jwks :
      (g : Generator Private) (document : Jwks)
      → publish_keys ecdsa public_of
          (record { signing = record { key_id = g.key_id; key = some g.key }; published = [] })
        ≡ ok document
      → generator_jwks ecdsa public_of g ≡ ok document
  unfolding publish_keys generator_jwks
  publish_keys-generator_jwks g document h =
      elim (result_cases (new_jwk ecdsa g.key_id (some (public_of g.key)))) [
        | inr (e, bad) ↦ absurd (ground arith)
        | inl (j, made) ↦ ground arith
      ]

  issuer_jwks-generator_jwks :
      {W : Type 0} (g : Generator Private) (i : Issuer W Private Public) (w w' : W)
      (document : Jwks)
      → i.keys ≡ key_provider g
      → issuer_jwks ecdsa public_of i w ≡ (ok document, w')
      → generator_jwks ecdsa public_of g ≡ ok document
  unfolding issuer_jwks publish key_provider
  issuer_jwks-generator_jwks g i w w' document keys h =
      publish_keys-generator_jwks g document (ground (arith, keys))

module _ {W Private Public : Type 0} (out : Outside W Private) (system_clock : Clock W)
    (ecdsa : Ecdsa Public) (public_of : Private → Public) where
  -- An output of the generator for a configuration: the claims that it asks for, with a lifetime,
  -- the token that SignUnchecked makes of them, and the generator's own JWKS.
  pub record Generates (g : Generator Private) (config : Config) (output : Output) : Type 0 where
    pub carries : Carries out.numeric_date config.issuer config output.claims
    pub lifetime : pos 0 <ℤ ttl_of config
    pub before : W
    pub after : W
    pub signed : sign_unchecked out g output.claims before ≡ (ok output.token, after)
    pub jwks : generator_jwks ecdsa public_of g ≡ ok output.jwks

  -- The steps of Generate.
  record Steps (g : Generator Private) (config : Config) (output : Output) (w w' : W) : Type 0 where
    allowed : config.token_use ≢ token_use_service → (config.origin_sub ≡ "") × (config.txn ≡ "")
    iss : Issuer W Private Public
    built :
        Build.new system_clock config.issuer (some (key_provider g)) (with_ttl (ttl_of config) ∷ [])
        ≡ ok iss
    issued : Issued
    between : W
    minted : issue out system_clock iss config (ttl_of config) w ≡ (ok issued, between)
    published : issuer_jwks ecdsa public_of iss between ≡ (ok output.jwks, w')
    token : issued.token ≡ output.token
    claims : issued.claims ≡ output.claims

  generate-Steps :
      (g : Generator Private) (config : Config) (output : Output) (w w' : W)
      → generate out system_clock ecdsa public_of g config w ≡ (ok output, w')
      → Steps g config output w w'
  unfolding generate
  generate-Steps g config output w w' h =
      elim (result_cases (
        Build.new {Public = Public} system_clock config.issuer (some (key_provider g))
          (with_ttl (ttl_of config) ∷ []))) [
            | inr (e, bad) ↦ absurd (ground arith)
            | inl (iss, built) ↦
                elim (outcome (issue out system_clock iss config (ttl_of config) w)) [
                  | inr (e, v, bad) ↦ absurd (ground arith)
                  | inl (issued, between, minted) ↦
                      elim (outcome (issuer_jwks ecdsa public_of iss between)) [
                        | inr (e, v, bad) ↦ absurd (ground arith)
                        | inl (jwks, v, published) ↦ record {
                          allowed = ground (
                            arith,
                            eq_iff config.origin_sub "",
                            eq_iff config.txn "",
                            eq_iff config.token_use token_use_service,
                          );
                          iss = iss;
                          built = built;
                          issued = issued;
                          between = between;
                          minted = minted;
                          published = ground arith;
                          token = ground arith;
                          claims = ground arith;
                        }
                      ]
                ]
          ]

  module _ (filled : (w : W) (s : String) → (out.new_v7 w).0 ≡ ok s → s ≢ "") where
    -- What Generate returns carries the claims that the configuration asks for, has the token that
    -- SignUnchecked makes of them, and the generator's own JWKS, if a UUID is not empty.
    pub generate-Generates :
        (g : Generator Private) (config : Config) (output : Output) (w w' : W)
        → g.key_id ≢ ""
        → generate out system_clock ecdsa public_of g config w ≡ (ok output, w')
        → Generates g config output
    generate-Generates g config output w w' named h =
        let s = generate-Steps g config output w w' h in
        let (issuer_named, positive, made) =
          new-with_ttl system_clock config.issuer (key_provider g) (ttl_of config) s.iss s.built in
        let (c, v, carries, signed) =
          issue-Minted out filled system_clock s.iss config (ttl_of config) w s.between s.issued
            s.allowed s.minted in
        let s_claims : s.issued.claims ≡ c =
          ((issue-Signs_iff out s.iss c v s.between s.issued).0 signed).claims in
        let same : c ≡ output.claims = sym s_claims ∙ s.claims in
        let whole : s.issued ≡ record { token = output.token; claims = output.claims } =
          ground (arith, s.token, s.claims) in
        let keys : s.iss.keys ≡ key_provider g = ap (λ i. i.keys) made in
        let issuer_id : s.iss.issuer_id ≡ config.issuer = ap (λ i. i.issuer_id) made in
        let asked : Carries out.numeric_date config.issuer config output.claims =
          subst (λ x. Carries out.numeric_date x config output.claims) issuer_id
            (subst (Carries out.numeric_date s.iss.issuer_id config) same carries) in
        let issued : Issue.issue out s.iss output.claims v
            ≡ (ok (record { token = output.token; claims = output.claims }), s.between) =
          subst (λ x. Issue.issue out s.iss output.claims v ≡ (ok x, s.between)) whole
            (subst (λ x. Issue.issue out s.iss x v ≡ (ok s.issued, s.between)) same signed) in
        record {
          carries = asked;
          lifetime = positive;
          before = v;
          after = s.between;
          signed =
              (sign_unchecked-issue_iff out g named Public s.iss output.claims config.audience
                  output.token v s.between keys asked.internal.one_audience).1
                issued;
          jwks =
              issuer_jwks-generator_jwks ecdsa public_of g s.iss s.between w' output.jwks keys
                s.published;
        }
