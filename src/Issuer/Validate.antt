-- ===== src/Issuer/Validate.antt =====
-- The input checks of issuer/claims.go, issuer/external.go and issuer/service.go.
pub mod Accepted
use internal_jwt_handling.Base.{String, none, some, ◌==◌, ◌||◌, not, contains, if◌then◌else◌}
use internal_jwt_handling.Errors.{
  Error, sentinel, detail, issuer, IssuerError, root, unsupported_token_use, context_missing_expiry,
  context_expired, context_audience_mismatch, missing_subject, missing_client_id,
  missing_source_jti, missing_source_expiry, external_service, missing_caller_service,
  context_missing_txn, context_missing_jti, context_missing_subject, context_missing_scope,
  context_missing_source_jti, context_not_user_origin, machine_context_not_service,
  machine_context_carries_origin, machine_context_carries_binding,
}
use internal_jwt_handling.Time.{Time, after, is_zero}
use internal_jwt_handling.Result.{
  Result, ok, err, ◌>>=◌, ◌>>◌, reject, require, require_some, map_err,
}
use internal_jwt_handling.Claims.{
  Claims, token_use_tenant_access, token_use_event_access, token_use_service,
  token_use_registration, validate_binding,
}
use internal_jwt_handling.Issuer.Model.{
  ExternalTokenInput, UserOriginServiceInput, MachineOriginServiceInput,
}

abbrev fault : IssuerError → Error
fault e = sentinel (issuer e)

-- validateContextToken
unfoldable pub validate_context_token : Claims → String → Time → Result (Unit {0})
validate_context_token context caller_service now = do
  expires_at ← require_some context.expires_at (fault context_missing_expiry)
  reject (not (after expires_at now)) (fault context_expired)
  reject (not (contains context.audience caller_service))
      (detail (fault context_audience_mismatch) caller_service)

-- validateExternalTokenBinding
unfoldable pub validate_external_token_binding : ExternalTokenInput → Result (Unit {0})
validate_external_token_binding input = do
  reject (input.token_use == token_use_service) (fault external_service)
  validate_binding input.token_use input.tenant_public_id input.event_public_id

-- validateExternalToken
unfoldable pub validate_external_token : ExternalTokenInput → Result (Unit {0})
unfolding validate_external_token_binding
validate_external_token input = do
  require input.audience (fault IssuerError.missing_audience)
  require input.subject (fault missing_subject)
  require input.client_id (fault missing_client_id)
  require input.scope (fault IssuerError.missing_scope)
  require input.source_jti (fault missing_source_jti)
  reject (is_zero input.source_expires_at) (fault missing_source_expiry)
  validate_external_token_binding input

-- The `switch` of validateUserOriginContextUse.
abbrev user_origin_use : Claims → Result (Unit {0})
user_origin_use context =
    if context.token_use == token_use_tenant_access
      || context.token_use == token_use_event_access
      || context.token_use == token_use_registration
    then ok tt
    else if context.token_use == token_use_service
    then require context.origin_sub (fault context_not_user_origin)
    else err (detail (sentinel (root unsupported_token_use)) context.token_use)

-- validateUserOriginContextUse
unfoldable pub validate_user_origin_context_use : Claims → Result (Unit {0})
validate_user_origin_context_use context = do
  user_origin_use context
  map_err (λ e. detail e "context token")
      (validate_binding context.token_use context.tenant_public_id context.event_public_id)

-- validateUserOriginService
unfoldable pub validate_user_origin_service : UserOriginServiceInput → Time → Result (Unit {0})
unfolding validate_context_token validate_user_origin_context_use
validate_user_origin_service input now = do
  require input.audience (fault IssuerError.missing_audience)
  require input.caller_service (fault missing_caller_service)
  validate_context_token input.context input.caller_service now
  validate_user_origin_context_use input.context
  require input.context.scope (fault context_missing_scope)
  require input.context.txn (fault context_missing_txn)
  require input.context.source_jti (fault context_missing_source_jti)
  require input.context.id (fault context_missing_jti)
  require input.context.subject (fault context_missing_subject)

-- validateMachineOriginService, of a context token that is presented
unfoldable pub validate_machine_context : Claims → String → Time → Result (Unit {0})
unfolding validate_context_token
validate_machine_context context caller_service now = do
  validate_context_token context caller_service now
  require context.txn (fault context_missing_txn)
  reject (not (context.token_use == token_use_service))
      (detail (fault machine_context_not_service) context.token_use)
  reject
      (not (context.scope == "")
        || not (context.source_jti == "")
        || not (context.origin_sub == ""))
      (fault machine_context_carries_origin)
  reject (not (context.tenant_public_id == "") || not (context.event_public_id == ""))
      (fault machine_context_carries_binding)

-- validateMachineOriginService
unfoldable pub validate_machine_origin_service :
    MachineOriginServiceInput → Time → Result (Unit {0})
unfolding validate_machine_context
validate_machine_origin_service input now = do
  require input.audience (fault IssuerError.missing_audience)
  require input.caller_service (fault missing_caller_service)
  elim input.context [
    | none ↦ ok tt
    | some context ↦ validate_machine_context context input.caller_service now
  ]
