-- ===== src/Claims/Binding.antt =====
-- What ValidateBinding of claims.go accepts, and the error of each refusal.
use internal_jwt_handling.Base.{String, ◌≡◌, ◌≢◌, ◌↔◌, ◌⊎◌, arith, eq_iff}
use internal_jwt_handling.Claims.{
  validate_binding, token_use_tenant_access, token_use_event_access, token_use_registration,
  token_use_service,
}
use internal_jwt_handling.Result.{ok}

-- The four uses are different texts.
pub token_uses_differ :
    (token_use_tenant_access ≢ token_use_event_access)
    × (token_use_tenant_access ≢ token_use_registration)
    × (token_use_tenant_access ≢ token_use_service)
    × (token_use_event_access ≢ token_use_registration)
    × (token_use_event_access ≢ token_use_service)
    × (token_use_registration ≢ token_use_service)
token_uses_differ = (
  ground (arith, eq_iff "tenant_access" "event_access"),
  ground (arith, eq_iff "tenant_access" "registration"),
  ground (arith, eq_iff "tenant_access" "service"),
  ground (arith, eq_iff "event_access" "registration"),
  ground (arith, eq_iff "event_access" "service"),
  ground (arith, eq_iff "registration" "service"),
)

-- The rows of the token_use table: which of tenant_id and event_id each use carries.
abbrev pub IsBound : String → String → String → Type 0
IsBound token_use tenant event =
    (token_use ≡ token_use_tenant_access) × (tenant ≢ "") × (event ≡ "")
    ⊎ (token_use ≡ token_use_event_access) × (tenant ≢ "") × (event ≢ "")
    ⊎ (token_use ≡ token_use_registration) × (tenant ≡ "") × (event ≡ "")
    ⊎ (token_use ≡ token_use_service) × (event ≢ "" → tenant ≢ "")

-- A triple passes exactly when it is a row of the table.
pub validate_binding-IsBound_iff :
    (token_use tenant event : String)
    → (validate_binding token_use tenant event ≡ ok tt) ↔ IsBound token_use tenant event
unfolding validate_binding
validate_binding-IsBound_iff u t e = ground (
  arith,
  token_uses_differ,
  eq_iff u token_use_tenant_access,
  eq_iff u token_use_event_access,
  eq_iff u token_use_registration,
  eq_iff u token_use_service,
  eq_iff t "",
  eq_iff e "",
)
