-- ===== src/Agreement/Allowed.antt =====
-- A call that presents a token of issuer/issuer.go to interceptor/interceptor.go, whose verifier is
-- that of verifier/verifier.go.
use internal_jwt_handling.Base.{
  String, List, some, ◌≡◌, refl, sym, subst, ◌≢◌, inr, ◌≤◌, ◌+◌, ap, ◌∙◌, In, All,
}
use internal_jwt_handling.Time.{add, second}
use internal_jwt_handling.Result.{Result, ok}
use internal_jwt_handling.Strings.{fields}
use internal_jwt_handling.Wire.{Payload}
use internal_jwt_handling.Wire.RoundTrip.{ReadsRegistered}
use internal_jwt_handling.Claims.{RegisteredClaims}
use internal_jwt_handling.Context.{Context, context_with_claims, claims_from_context}
use internal_jwt_handling.Issuer.Model.{KeySet, Outside, Issuer, ExternalTokenInput, Issued}
use internal_jwt_handling.Issuer.Derive.Inversion.{external_token_claims-FromExternal}
use internal_jwt_handling.Issuer.Derive.Lifetime.{Truncates}
use internal_jwt_handling.Issuer.Issue.{issue_from_external}
use internal_jwt_handling.Issuer.Issue.Derived.{issue_from_external-Derived}
use internal_jwt_handling.Issuer.Issue.Signing.{issue-Signs_iff}
use internal_jwt_handling.Verifier.Build.{Parser, Verifier}
use internal_jwt_handling.Verifier.Verify.{verify, verify_for}
use internal_jwt_handling.Verifier.Bearer.{IsBearer}
use internal_jwt_handling.Verifier.Trust.{IsReady}
use internal_jwt_handling.Interceptor.Model.{Policy, public, Header, Interceptor}
use internal_jwt_handling.Interceptor.Authorize.{
  accepted_token_uses, authorization_header, allowed, authorize,
}
use internal_jwt_handling.Interceptor.Decisions.{Authenticates, authorize-Permits_iff}
use internal_jwt_handling.Agreement.{Agrees}
use internal_jwt_handling.Agreement.Issued.{Shares, verify_for-issue_from_external}

-- What a conversion takes over from its input.
issue_from_external-carries :
    {W Private Public : Type 0} (out : Outside W Private) (i : Issuer W Private Public)
    (input : ExternalTokenInput) (w w' : W) (issued : Issued)
    → issue_from_external out i input w ≡ (ok issued, w')
    → (issued.claims.token_use ≡ input.token_use) × (issued.claims.scope ≡ input.scope)
issue_from_external-carries out i input w w' issued h =
    let (c, u, derived, signed) = issue_from_external-Derived out i input w w' issued h in
    let f =
      external_token_claims-FromExternal out i input (i.clock w).0 (i.clock w).1 u c derived in
    let same = ((issue-Signs_iff out i c u w' issued).0 signed).claims ∙ f.claims in
    (ap (λ d. d.token_use) same, ap (λ d. d.scope) same)

-- What a guarded procedure asks of a conversion's token: that its use is accepted, and that the
-- scopes that it was made with cover the required ones.
pub record IsEntitled {V : Type 0} (a : Interceptor V) (procedure : String)
    (input : ExternalTokenInput) : Type 0 where
  pub policy : Policy
  pub named : a.policies.lookup procedure ≡ some policy
  pub guarded : policy.level ≢ public
  pub uses : List String
  pub accepted : accepted_token_uses a policy procedure ≡ ok uses
  pub listed : In input.token_use uses
  pub granted : All (λ s. In s (fields input.scope)) policy.required_scopes

module _ {W V Private Public : Type 0} (out : Outside W Private) (parse : Parser V Public)
    (read : Payload → Result RegisteredClaims) (public_of : Private → Public)
    (reads : ReadsRegistered read) (agrees : Agrees out parse read public_of)
    (truncates : Truncates out.numeric_date)
    (filled : (w : W) (s : String) → (out.new_v7 w).0 ≡ ok s → s ≢ "") (i : Issuer W Private Public)
    (x : Verifier V Public) (ready : IsReady x) (a : Interceptor V)
    (verifies : a.verifier ≡ verify parse x) where
  -- A call with a token that IssueFromExternal returned is let through to a guarded procedure that
  -- its input is entitled to, and runs under a context from which ClaimsFromContext reads the very
  -- claims that came with the token: where the input's audience is the verifier's, the Authorization
  -- header carries the token, and the verifier is set up for the issuer and asked in time.
  pub authorize-issue_from_external :
      (input : ExternalTokenInput) (w w' : W) (issued : Issued) (v v' : V)
      (keys : KeySet Private Public) (private : Private) (ctx : Context) (procedure : String)
      (header : Header)
      → issue_from_external out i input w ≡ (ok issued, w')
      → Shares out parse read public_of reads agrees i x ready keys private v v'
      → (i.clock w).0 ≤ (ready.clock v').0
      → (ready.clock v').0 + second ≤ input.source_expires_at
      → (ready.clock v').0 + second ≤ add (i.clock w).0 i.ttl
      → input.audience ≡ x.audience
      → IsEntitled a procedure input
      → IsBearer (header authorization_header) issued.token
      → (ctx' : Context) × (authorize a ctx procedure header v ≡ (allowed ctx', (ready.clock v').1))
        × (claims_from_context ctx' ≡ some issued.claims)
  unfolding claims_from_context context_with_claims verify
  authorize-issue_from_external input w w' issued v v' keys private ctx procedure header h shares
        begun in_source in_ttl addressed e bearer =
      let accepted =
        verify_for-issue_from_external out parse read public_of reads agrees i x ready truncates
          filled input w w' issued v v' keys private h shares begun in_source in_ttl in
      let (token_use, scope) = issue_from_external-carries out i input w w' issued h in
      let verified : a.verifier issued.token v ≡ (ok issued.claims, (ready.clock v').1) =
        ap (λ f. f issued.token v) verifies
        ∙ subst (λ s. verify_for parse x issued.token s v ≡ (ok issued.claims, (ready.clock v').1))
            addressed accepted in
      let authenticated : Authenticates a procedure e.policy header v (ready.clock v').1
          issued.claims =
        record {
          uses = e.uses;
          accepted = e.accepted;
          token = issued.token;
          bearer = bearer;
          verified = verified;
          listed = subst (λ u. In u e.uses) (sym token_use) e.listed;
          granted = λ n.
              subst (λ s. All (λ r. In r (fields s)) e.policy.required_scopes) (sym scope)
                e.granted;
        } in
      (
        context_with_claims ctx issued.claims,
        (authorize-Permits_iff a ctx procedure header v (ready.clock v').1
              (context_with_claims ctx issued.claims)).1
            (record {
              policy = e.policy;
              named = e.named;
              reason = inr (e.guarded, (issued.claims, authenticated, refl));
            }),
        refl,
      )
