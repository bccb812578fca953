-- ===== src/Issuer/Issue/Signing.antt =====
-- What the Issue methods of issuer/issuer.go sign, and under which key.
use internal_jwt_handling.Base.{
  String, some, ◌≡◌, ◌≢◌, ◌↔◌, arith, eq_iff, Option-cases, inl, inr, subst, sym,
}
use internal_jwt_handling.Result.{ok}
use internal_jwt_handling.Result.Inversion.{result_cases}
use internal_jwt_handling.Io.Inversion.{outcome}
use internal_jwt_handling.Claims.{Claims}
use internal_jwt_handling.Verifier.WellFormed.{IsInternal}
use internal_jwt_handling.Issuer.Model.{KeySet, Outside, Issuer, ExternalTokenInput, Issued}
use internal_jwt_handling.Issuer.SignedClaims.{SignedClaims, new_signed_claims, payload}
use internal_jwt_handling.Issuer.Derive.{external_token_claims}
use internal_jwt_handling.Issuer.Derive.Internal.{external_token_claims-IsInternal}
use internal_jwt_handling.Issuer.Issue.{sign_with, issue, issue_from_external}

module _ {W Private : Type 0} (out : Outside W Private) {Public : Type 0}
    (i : Issuer W Private Public) where
  -- A token over a claim set: its wire form, signed by the key that the provider has at that moment,
  -- under that key's kid.
  pub record Signs (c : Claims) (w w' : W) (issued : Issued) : Type 0 where
    pub claims : issued.claims ≡ c
    pub signable : SignedClaims
    pub wire : new_signed_claims c ≡ ok signable
    pub keys : KeySet Private Public
    pub asked : W
    pub provided : i.keys w ≡ (ok keys, asked)
    pub named : keys.signing.key_id ≢ ""
    pub private : Private
    pub held : keys.signing.key ≡ some private
    pub signed :
        out.signed_string keys.signing.key_id private (payload out.numeric_date signable) asked
        ≡ (ok issued.token, w')

  issue_sound :
      (c : Claims) (w w' : W) (issued : Issued)
      → issue out i c w ≡ (ok issued, w')
      → Signs c w w' issued
  unfolding issue sign_with
  issue_sound c w w' issued h = elim (result_cases (new_signed_claims c)) [
    | inr (e, bad) ↦ absurd (ground arith)
    | inl (signable, wire) ↦ elim (outcome (i.keys w)) [
      | inr (e, v, lost) ↦ absurd (ground arith)
      | inl (keys, v, provided) ↦ elim (Option-cases keys.signing.key) [
        | inl missed ↦ absurd (ground (arith, eq_iff keys.signing.key_id ""))
        | inr (private, held) ↦
            elim (outcome (
              out.signed_string keys.signing.key_id private (payload out.numeric_date signable)
                v)) [
                  | inr (e, u, lost) ↦ absurd (ground (arith, eq_iff keys.signing.key_id ""))
                  | inl (token, u, signed) ↦ record {
                    claims = ground (arith, eq_iff keys.signing.key_id "");
                    signable = signable;
                    wire = wire;
                    keys = keys;
                    asked = v;
                    provided = provided;
                    named = ground (arith, eq_iff keys.signing.key_id "");
                    private = private;
                    held = held;
                    signed = ground (arith, eq_iff keys.signing.key_id "");
                  }
                ]
      ]
    ]
  ]

  issue_complete :
      (c : Claims) (w w' : W) (issued : Issued)
      → Signs c w w' issued
      → issue out i c w ≡ (ok issued, w')
  unfolding issue sign_with
  issue_complete c w w' issued s = ground (
    arith,
    s.claims,
    s.wire,
    s.provided,
    s.held,
    s.signed,
    s.named,
    eq_iff s.keys.signing.key_id "",
  )

  -- The method `issue` answers with a token exactly when the claim set has a wire form and the
  -- provider a named key; the token is that wire form signed by this key under its kid, and comes
  -- with the claim set.
  pub issue-Signs_iff :
      (c : Claims) (w w' : W) (issued : Issued)
      → (issue out i c w ≡ (ok issued, w')) ↔ Signs c w w' issued
  issue-Signs_iff c w w' issued = (issue_sound c w w' issued, issue_complete c w w' issued)

  module _ (filled : (w : W) (s : String) → (out.new_v7 w).0 ≡ ok s → s ≢ "") where
    -- What IssueFromExternal answers with is a signed internal JWT for the input's audience, if a
    -- UUID is not empty.
    pub issue_from_external-Signs :
        (input : ExternalTokenInput) (w w' : W) (issued : Issued)
        → issue_from_external out i input w ≡ (ok issued, w')
        → IsInternal input.audience issued.claims × ((v : W) × Signs issued.claims v w' issued)
    unfolding issue_from_external
    issue_from_external-Signs input w w' issued h =
        elim (outcome (external_token_claims out i input (i.clock w).0 (i.clock w).1)) [
          | inr (e, v, lost) ↦ absurd (ground arith)
          | inl (c, v, derived) ↦
              let s = issue_sound c v w' issued (ground arith) in
              let internal =
                external_token_claims-IsInternal out filled i input (i.clock w).0 (i.clock w).1 v c
                  derived in
              (
                subst (IsInternal input.audience) (sym s.claims) internal,
                (v, subst (λ x. Signs x v w' issued) (sym s.claims) s),
              )
        ]
