-- ===== src/Interceptor/Decisions.antt =====
-- Whom the interceptor (interceptor/interceptor.go) lets through, and what a refusal tells.
use internal_jwt_handling.Base.{
  String, List, some, ◌≡◌, refl, ◌≢◌, ◌↔◌, ◌⊎◌, inl, inr, subst, arith, eq_iff, contains_iff, In,
  All, Option-cases,
}
use internal_jwt_handling.Errors.{Error}
use internal_jwt_handling.Result.{ok}
use internal_jwt_handling.Result.Inversion.{result_cases}
use internal_jwt_handling.Io.Inversion.{outcome}
use internal_jwt_handling.Strings.{fields}
use internal_jwt_handling.Claims.{Claims, token_use_service}
use internal_jwt_handling.Context.{Context, context_with_claims}
use internal_jwt_handling.Verifier.Bearer.{bearer_token, IsBearer, bearer_token-IsBearer_iff}
use internal_jwt_handling.Interceptor.Model.{Level, public, Policy, Header, Code, Interceptor}
use internal_jwt_handling.Interceptor.Authorize.{
  authorization_header, accepted_token_uses, verify_header, judge, refuse_token, Checked, passed,
  failed, check, allowed, authorize,
}
use internal_jwt_handling.Interceptor.Scopes.{missing_scopes-empty_iff}

pub checked_cases :
    {W : Type 0} (p : Checked × W)
    → ((c : Claims) × (w : W) × (p ≡ (passed c, w)))
      ⊎ ((code : Code) × (e : Error) × (w : W) × (p ≡ (failed code e, w)))
checked_cases (passed c, w) = inl (c, w, refl)
checked_cases (failed code e, w) = inr (code, e, w, refl)

module _ {W : Type 0} (i : Interceptor W) where
  -- A call whose credential the policy of its procedure accepts.
  pub record Authenticates (procedure : String) (policy : Policy) (header : Header) (w w' : W)
      (c : Claims) : Type 0 where
    pub uses : List String
    pub accepted : accepted_token_uses i policy procedure ≡ ok uses
    pub token : String
    pub bearer : IsBearer (header authorization_header) token
    pub verified : i.verifier token w ≡ (ok c, w')
    pub listed : In c.token_use uses
    pub granted :
        c.token_use ≢ token_use_service → All (λ s. In s (fields c.scope)) policy.required_scopes

  judge-passed_iff :
      (uses : List String) (policy : Policy) (c d : Claims)
      → (judge i uses policy c ≡ passed d) ↔ (
          (c ≡ d)
          × In c.token_use uses
          × (c.token_use ≢ token_use_service
              → All (λ s. In s (fields c.scope)) policy.required_scopes))
  unfolding judge
  judge-passed_iff uses policy c d = ground (
    arith,
    contains_iff uses c.token_use,
    eq_iff c.token_use token_use_service,
    missing_scopes-empty_iff policy.required_scopes c.scope,
  )

  check_sound :
      (procedure : String) (policy : Policy) (header : Header) (w w' : W) (c : Claims)
      → check i procedure policy header w ≡ (passed c, w')
      → Authenticates procedure policy header w w' c
  unfolding check verify_header refuse_token
  check_sound procedure policy header w w' c h =
      elim (result_cases (accepted_token_uses i policy procedure)) [
        | inr (e, refuses) ↦ absurd (ground arith)
        | inl (uses, accepted) ↦ elim (result_cases (bearer_token (header authorization_header))) [
          | inr (e, missed) ↦ absurd (ground arith)
          | inl (token, found) ↦ elim (outcome (i.verifier token w)) [
            | inr (e, v, rejected) ↦ absurd (ground arith)
            | inl (d, v, verified) ↦
                let judged : judge i uses policy d ≡ passed c = ground arith in
                let (same, listed, granted) = (judge-passed_iff uses policy d c).0 judged in
                record {
                  uses = uses;
                  accepted = accepted;
                  token = token;
                  bearer = (bearer_token-IsBearer_iff _ token).0 found;
                  verified = ground arith;
                  listed = subst (λ x. In x.token_use uses) same listed;
                  granted =
                      subst
                        (λ x.
                          x.token_use ≢ token_use_service
                          → All (λ s. In s (fields x.scope)) policy.required_scopes)
                        same granted;
                }
          ]
        ]
      ]

  check_complete :
      (procedure : String) (policy : Policy) (header : Header) (w w' : W) (c : Claims)
      → Authenticates procedure policy header w w' c
      → check i procedure policy header w ≡ (passed c, w')
  unfolding check verify_header
  check_complete procedure policy header w w' c a =
      let judged = (judge-passed_iff a.uses policy c c).1 (refl, a.listed, a.granted) in
      let read = (bearer_token-IsBearer_iff (header authorization_header) a.token).1 a.bearer in
      ground (arith, a.accepted, a.verified, read, judged)

  -- `check` passes a call with claims exactly when the token uses of the procedure are known, the
  -- Authorization header is a bearer's, the verifier accepts its token with these claims, their
  -- token_use is one of the accepted, and they grant every required scope or are a service's.
  pub check-Authenticates_iff :
      (procedure : String) (policy : Policy) (header : Header) (w w' : W) (c : Claims)
      → (check i procedure policy header w ≡ (passed c, w'))
        ↔ Authenticates procedure policy header w w' c
  check-Authenticates_iff procedure policy header w w' c =
      (check_sound procedure policy header w w' c, check_complete procedure policy header w w' c)

  -- Why a call is let through: its procedure is public, or its credential is accepted.
  pub record Permits (ctx : Context) (procedure : String) (header : Header) (w w' : W)
      (ctx' : Context) : Type 0 where
    pub policy : Policy
    pub named : i.policies.lookup procedure ≡ some policy
    pub reason :
        (policy.level ≡ public) × (ctx' ≡ ctx) × (w' ≡ w)
        ⊎ (policy.level ≢ public)
          × ((c : Claims) × Authenticates procedure policy header w w' c
              × (ctx' ≡ context_with_claims ctx c))

  pub is_public : (l : Level) → (l ≡ public) ⊎ (l ≢ public)
  is_public l = ground arith

  authorize_sound :
      (ctx : Context) (procedure : String) (header : Header) (w w' : W) (ctx' : Context)
      → authorize i ctx procedure header w ≡ (allowed ctx', w')
      → Permits ctx procedure header w w' ctx'
  unfolding authorize
  authorize_sound ctx procedure header w w' ctx' h =
      elim (Option-cases (i.policies.lookup procedure)) [
        | inl missed ↦ absurd (ground arith)
        | inr (policy, named) ↦ elim (is_public policy.level) [
          | inl open_to_all ↦ record {
            policy = policy;
            named = named;
            reason = inl (open_to_all, ground arith, ground arith);
          }
          | inr guarded ↦ elim (checked_cases (check i procedure policy header w)) [
            | inr (code, e, v, rejected) ↦ absurd (ground arith)
            | inl (c, v, accepted) ↦ record {
              policy = policy;
              named = named;
              reason = inr (
                guarded,
                (c, check_sound procedure policy header w w' c (ground arith), ground arith),
              );
            }
          ]
        ]
      ]

  authorize_complete :
      (ctx : Context) (procedure : String) (header : Header) (w w' : W) (ctx' : Context)
      → Permits ctx procedure header w w' ctx'
      → authorize i ctx procedure header w ≡ (allowed ctx', w')
  unfolding authorize
  authorize_complete ctx procedure header w w' ctx' p = elim p.reason [
    | inl (open_to_all, same, still) ↦ ground (arith, p.named)
    | inr (guarded, (c, a, carried)) ↦
        let accepted = check_complete procedure p.policy header w w' c a in
        ground (arith, p.named, accepted)
  ]

  -- A call is let through exactly when the table names its procedure and either the procedure is
  -- public, the context then being the caller's own and nothing outside being called, or its
  -- credential is accepted, the context then carrying the verified claims.
  pub authorize-Permits_iff :
      (ctx : Context) (procedure : String) (header : Header) (w w' : W) (ctx' : Context)
      → (authorize i ctx procedure header w ≡ (allowed ctx', w'))
        ↔ Permits ctx procedure header w w' ctx'
  authorize-Permits_iff ctx procedure header w w' ctx' = (
    authorize_sound ctx procedure header w w' ctx',
    authorize_complete ctx procedure header w w' ctx',
  )
