-- ===== src/Interceptor/Refusals.antt =====
-- What a refusal of the interceptor (interceptor/interceptor.go) tells the client and the reporter,
-- and which cause each code stands for.
use internal_jwt_handling.Base.{
  String, List, Option, none, some, ◌≡◌, refl, ◌≢◌, ◌↔◌, ◌⊎◌, inl, inr, false, arith, eq_iff,
  contains_iff, In, All, Option-cases,
}
use internal_jwt_handling.Errors.{errors_is, is_key_resolution}
use internal_jwt_handling.Result.{Result, ok, err}
use internal_jwt_handling.Io.Inversion.{outcome}
use internal_jwt_handling.Strings.{fields}
use internal_jwt_handling.Claims.{Claims, token_use_service}
use internal_jwt_handling.Context.{Context}
use internal_jwt_handling.Verifier.Failures.{Unresolved}
use internal_jwt_handling.Interceptor.Model.{
  public, Policy, Header, Code, ConnectError, Interceptor, code_message, unauthenticated,
  unavailable, permission_denied,
}
use internal_jwt_handling.Interceptor.Authorize.{
  accepted_token_uses, verify_header, judge, refuse_token, Checked, passed, failed, check, refused,
  report, authorize,
}
use internal_jwt_handling.Interceptor.Scopes.{missing_scopes-empty_iff}
use internal_jwt_handling.Interceptor.Decisions.{checked_cases, is_public}

abbrev pub code_of : Checked → Option Code
code_of (passed c) = none
code_of (failed code e) = some code

-- A credential that is refused for itself: the header, the token or its claims are refused with an
-- error that is not one of key resolution (a kid that no key is known for is such a one), or the
-- procedure does not take its token_use.
abbrev pub IsBad : List String → Result Claims → Type 0
IsBad uses (err e) = errors_is e is_key_resolution ≡ false
IsBad uses (ok c) = ¬ In c.token_use uses

-- Accepted claims that are not a service's and lack a required scope.
abbrev pub Lacks : List String → Policy → Result Claims → Type 0
Lacks uses policy (err e) = ⊥
Lacks uses policy (ok c) =
    In c.token_use uses
    × (c.token_use ≢ token_use_service)
    × ¬ (All (λ s. In s (fields c.scope)) policy.required_scopes)

module _ {W : Type 0} (i : Interceptor W) where
  -- The cause behind a refused call, and the state of the outside when it was found.
  pub record Refuses (procedure : String) (header : Header) (w : W) (e : ConnectError) (v : W)
      : Type 0 where
    pub cause :
        (i.policies.lookup procedure ≡ none) × (e.code ≡ Code.internal) × (v ≡ w)
        ⊎ ((policy : Policy) × (i.policies.lookup procedure ≡ some policy)
            × (policy.level ≢ public)
            × (check i procedure policy header w ≡ (failed e.code e.cause, v)))

  -- A refused call is one that the table does not name or that `check` fails; the client gets the
  -- fixed message of its code, and the cause is reported once, as the last thing done outside.
  pub authorize-Refuses :
      (ctx : Context) (procedure : String) (header : Header) (w w' : W) (e : ConnectError)
      → authorize i ctx procedure header w ≡ (refused e, w')
      → (e.message ≡ code_message e.code)
        × ((v : W) × (w' ≡ report i procedure e.cause v) × Refuses procedure header w e v)
  unfolding authorize
  authorize-Refuses ctx procedure header w w' e h =
      elim (Option-cases (i.policies.lookup procedure)) [
        | inl missed ↦
            (ground arith, (w, ground arith, record { cause = inl (missed, ground arith, refl) }))
        | inr (policy, named) ↦ elim (is_public i policy.level) [
          | inl open_to_all ↦ absurd (ground arith)
          | inr guarded ↦ elim (checked_cases (check i procedure policy header w)) [
            | inl (c, v, accepted) ↦ absurd (ground arith)
            | inr (code, x, v, rejected) ↦ (
              ground arith,
              (v, ground arith, record { cause = inr (policy, named, guarded, ground arith) }),
            )
          ]
        ]
      ]

  -- Where the procedure's accepted token uses are known, `check` fails a call with CodeUnavailable
  -- exactly when its credential is refused with an error that is ErrKeyResolution; with
  -- CodeUnauthenticated exactly when it is refused with any other error, of an unknown kid too, or
  -- its claims have a token_use that is not accepted; and with CodePermissionDenied exactly when its
  -- claims have an accepted token_use that is not a service's and lack a required scope.
  pub check-code_iff :
      (procedure : String) (policy : Policy) (header : Header) (w : W) (uses : List String)
      → accepted_token_uses i policy procedure ≡ ok uses
      → ((code_of (check i procedure policy header w).0 ≡ some unavailable)
          ↔ Unresolved (verify_header i header w).0)
        × ((code_of (check i procedure policy header w).0 ≡ some unauthenticated)
            ↔ IsBad uses (verify_header i header w).0)
        × ((code_of (check i procedure policy header w).0 ≡ some permission_denied)
            ↔ Lacks uses policy (verify_header i header w).0)
  unfolding check refuse_token judge
  check-code_iff procedure policy header w uses accepted =
      elim (outcome (verify_header i header w)) [
        | inl (c, v, e) ↦ ground (
          arith,
          contains_iff uses c.token_use,
          eq_iff c.token_use token_use_service,
          missing_scopes-empty_iff policy.required_scopes c.scope,
        )
        | inr (x, v, e) ↦ ground arith
      ]
