-- ===== src/Interceptor/Authorize.antt =====
-- interceptor/interceptor.go: building the interceptor, and deciding a call.
use internal_jwt_handling.Base.{
  String, List, [], ◌∷◌, Option, none, some, ◌==◌, not, nat_eq, contains, is_empty, Bool, true,
  false, ◌&&◌, if◌then◌else◌,
}
use internal_jwt_handling.Errors.{
  Error, sentinel, detail, wrap, interceptor, InterceptorError, missing_verifier, missing_policies,
  errors_is, is_key_resolution, unavailable, unauthenticated, token_use, unknown_level,
  unknown_procedure,
}
use internal_jwt_handling.Result.{Result, ok, err}
use internal_jwt_handling.Io.{Io}
use internal_jwt_handling.Strings.{fields}
use internal_jwt_handling.Claims.{Claims, token_use_service, token_use_tenant_access}
use internal_jwt_handling.Context.{Context, context_with_claims}
use internal_jwt_handling.Verifier.Bearer.{bearer_token}
use internal_jwt_handling.Interceptor.Model.{
  Level, unspecified, public, authenticated, Policy, Policies, Header, Code, permission_denied,
  ConnectError, TokenVerifier, Options, OptionOf, Interceptor, code_message,
}

abbrev pub authorization_header : String
authorization_header = "Authorization"

abbrev fault : InterceptorError → Error
fault e = sentinel (interceptor e)

-- defaultTokenUses
unfoldable pub default_token_uses : Level → Result (List String)
default_token_uses Level.internal = ok (token_use_service ∷ [])
default_token_uses public = ok []
default_token_uses authenticated = ok (token_use_tenant_access ∷ [])
default_token_uses unspecified = err (fault unknown_level)
default_token_uses (Level.other _) = err (fault unknown_level)

abbrev is_authenticated : Level → Bool
is_authenticated authenticated = true
is_authenticated _ = false

-- missingScopes, with its loop
unfoldable pub missing_from : List String → List String → List String
missing_from granted [] = []
missing_from granted (want ∷ required) =
    let rest = missing_from granted required in if contains granted want then rest else want ∷ rest

unfoldable pub missing_scopes : List String → String → List String
unfolding missing_from
missing_scopes required scope = missing_from (fields scope) required

-- The outcome of `check`: the claims, or a code and an error.
pub data Checked : Type 0 where
  passed : Claims → Checked
  failed : Code → Error → Checked

-- The outcome of `authorize`: the context that the handler runs under, or an error.
pub data Decision : Type 0 where
  allowed : Context → Decision
  refused : ConnectError → Decision

module _ {W : Type 0} where
  -- `for _, opt := range opts { opt(&resolved) }`
  unfoldable pub apply_options : Options W → List (OptionOf W) → Options W
  apply_options o [] = o
  apply_options o (opt ∷ opts) = apply_options (opt o) opts

  -- newOptions
  unfoldable pub new_options : List (OptionOf W) → Options W
  unfolding apply_options
  new_options opts =
      apply_options
        (record { reporter = none; authenticated_token_uses = []; token_uses = λ _. [] }) opts

  -- New
  unfoldable pub new :
      Option (TokenVerifier W) → Policies → List (OptionOf W) → Result (Interceptor W)
  unfolding new_options
  new none policies opts = err (fault missing_verifier)
  new (some verifier) policies opts =
      if nat_eq policies.count 0
      then err (fault missing_policies)
      else ok (record { verifier = verifier; policies = policies; options = new_options opts })

  module _ (i : Interceptor W) where
    -- report
    unfoldable pub report : String → Error → W → W
    report procedure e w = elim i.reporter [ none ↦ w | some reporter ↦ reporter procedure e w ]

    -- acceptedTokenUses, once the level has its defaults
    abbrev narrowed : Policy → String → List String → List String
    narrowed policy procedure defaults =
        if not (is_empty policy.token_uses)
        then policy.token_uses
        else if not (is_empty (i.token_uses procedure))
        then i.token_uses procedure
        else if is_authenticated policy.level && not (is_empty i.authenticated_token_uses)
        then i.authenticated_token_uses
        else defaults

    -- acceptedTokenUses
    unfoldable pub accepted_token_uses : Policy → String → Result (List String)
    accepted_token_uses policy procedure = elim (default_token_uses policy.level) [
      | err e ↦ err e
      | ok defaults ↦ ok (narrowed policy procedure defaults)
    ]

    -- The method `verify`
    unfoldable pub verify_header : Header → Io W Claims
    verify_header header w = elim (bearer_token (header authorization_header)) [
      | err e ↦ (err e, w)
      | ok token ↦ i.verifier token w
    ]

    -- The checks of `check` on verified claims.
    unfoldable pub judge : List String → Policy → Claims → Checked
    judge uses policy claims =
        if not (contains uses claims.token_use)
        then failed Code.unauthenticated (detail (fault token_use) claims.token_use)
        else if claims.token_use == token_use_service
        then passed claims
        else if not (is_empty (missing_scopes policy.required_scopes claims.scope))
        then failed permission_denied (fault InterceptorError.missing_scope)
        else passed claims

    -- What `check` makes of an error of the verification.
    unfoldable pub refuse_token : Error → Checked
    refuse_token e =
        if errors_is e is_key_resolution
        then failed Code.unavailable (wrap (fault unavailable) e)
        else failed Code.unauthenticated (wrap (fault unauthenticated) e)

    abbrev settle : List String → Policy → Result Claims × W → Checked × W
    settle uses policy (err e, w) = (refuse_token e, w)
    settle uses policy (ok claims, w) = (judge uses policy claims, w)

    -- check
    unfoldable pub check : String → Policy → Header → W → Checked × W
    check procedure policy header w = elim (accepted_token_uses policy procedure) [
      | err e ↦ (failed Code.internal e, w)
      | ok uses ↦ settle uses policy (verify_header header w)
    ]

    abbrev refuse : String → Code → Error → W → Decision × W
    refuse procedure code e w = (
      refused (record { code = code; message = code_message code; cause = e }),
      report procedure e w,
    )

    abbrev conclude : Context → String → Checked × W → Decision × W
    conclude ctx procedure (failed code e, w) = refuse procedure code e w
    conclude ctx procedure (passed claims, w) = (allowed (context_with_claims ctx claims), w)

    abbrev decide_by : Context → String → Policy → Header → W → Level → Decision × W
    decide_by ctx procedure policy header w public = (allowed ctx, w)
    decide_by ctx procedure policy header w _ =
        conclude ctx procedure (check procedure policy header w)

    -- authorize
    unfoldable pub authorize : Context → String → Header → W → Decision × W
    authorize ctx procedure header w = elim (i.policies.lookup procedure) [
      | none ↦ refuse procedure Code.internal (detail (fault unknown_procedure) procedure) w
      | some policy ↦ decide_by ctx procedure policy header w policy.level
    ]

    abbrev run_handler :
        (Context → W → Option ConnectError × W) → Decision × W → Option ConnectError × W
    run_handler next (refused e, w) = (some e, w)
    run_handler next (allowed authorized, w) = next authorized w

    -- wrap, around a handler that answers with an error or none
    unfoldable pub wrap_handler :
        (Context → W → Option ConnectError × W)
        → Context
        → String
        → Header
        → W
        → Option ConnectError × W
    unfolding authorize
    wrap_handler next ctx procedure header w = run_handler next (authorize ctx procedure header w)
