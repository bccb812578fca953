-- ===== src/Context.antt =====
-- context.go: the claims that a context carries.
-- A context is the chain of values put on it; those under other keys, and what the outside brings,
-- are not told apart.
use internal_jwt_handling.Base.{Option, none, some}
use internal_jwt_handling.Claims.{Claims}

pub data Context : Type 0 where
  background : Context
  with_other : Context → Context
  with_claims : Context → Claims → Context

-- ContextWithClaims
unfoldable pub context_with_claims : Context → Claims → Context
context_with_claims ctx claims = with_claims ctx claims

-- ClaimsFromContext: the value put on last, if there is one.
unfoldable pub claims_from_context : Context → Option Claims
claims_from_context background = none
claims_from_context (with_other ctx) = claims_from_context ctx
claims_from_context (with_claims ctx claims) = some claims
