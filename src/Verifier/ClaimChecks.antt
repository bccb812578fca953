-- ===== src/Verifier/ClaimChecks.antt =====
-- verifier/claims.go, and the claim checks of verifier/verifier.go.
use internal_jwt_handling.Base.{
  String, List, ◌==◌, ◌||◌, not, if◌then◌else◌, contains, length, nat_eq, is_empty,
}
use internal_jwt_handling.Errors.{
  Error, sentinel, detail, root, verifier, jwt, wrap, unsupported_token_use, missing_claim,
  forbidden_claim, client_id_mismatch, VerifierError, JwtError,
}
use internal_jwt_handling.Result.{Result, ok, err, ◌>>◌, reject, require, require_present, map_err}
use internal_jwt_handling.Claims.{
  Claims, token_use_tenant_access, token_use_event_access, token_use_service,
  token_use_registration, validate_binding,
}

unfoldable pub missing_claim_error : String → Error
missing_claim_error name = detail (sentinel (verifier missing_claim)) name

unfoldable pub forbidden_claim_error : String → Error
forbidden_claim_error name = detail (sentinel (verifier forbidden_claim)) name

-- matchAudience
unfoldable pub match_audience : List String → String → Result (Unit {0})
match_audience got want =
    if is_empty got
    then err (detail (sentinel (jwt JwtError.token_required_claim_missing)) "aud")
    else reject (not (contains got want)) (sentinel (jwt JwtError.token_invalid_audience))

-- validateRegisteredClaims
unfoldable pub validate_registered_claims : Claims → Result (Unit {0})
unfolding missing_claim_error
validate_registered_claims claims = do
  require claims.subject (missing_claim_error "sub")
  require claims.id (missing_claim_error "jti")
  require_present claims.not_before (missing_claim_error "nbf")
  require_present claims.issued_at (missing_claim_error "iat")
  reject (not (nat_eq (length claims.audience) 1))
      (sentinel (verifier VerifierError.audience_count))

-- validateCommonClaims
unfoldable pub validate_common_claims : Claims → Result (Unit {0})
unfolding missing_claim_error
validate_common_claims claims = do
  require claims.token_use (missing_claim_error "token_use")
  require claims.client_id (missing_claim_error "client_id")
  require claims.txn (missing_claim_error "txn")

-- validateExternalOriginClaims
unfoldable pub validate_external_origin_claims : Claims → Result (Unit {0})
unfolding missing_claim_error forbidden_claim_error
validate_external_origin_claims claims = do
  require claims.scope (missing_claim_error "scope")
  require claims.source_jti (missing_claim_error "src_jti")
  require_present claims.source_expires_at (missing_claim_error "src_exp")
  reject (not (claims.origin_sub == "")) (forbidden_claim_error "origin_sub")

-- validateMachineOriginClaims
unfoldable pub validate_machine_origin_claims : Claims → Result (Unit {0})
unfolding forbidden_claim_error
validate_machine_origin_claims claims = do
  reject (not (claims.scope == "")) (forbidden_claim_error "scope")
  reject (not (claims.source_jti == "")) (forbidden_claim_error "src_jti")
  reject (not (claims.tenant_public_id == "")) (forbidden_claim_error "tenant_id")

-- validateServiceOriginClaims
unfoldable pub validate_service_origin_claims : Claims → Result (Unit {0})
unfolding validate_machine_origin_claims missing_claim_error
validate_service_origin_claims claims =
    if claims.origin_sub == "" then validate_machine_origin_claims claims else (do
      require claims.scope (missing_claim_error "scope")
      require claims.source_jti (missing_claim_error "src_jti"))

-- validateServiceClaims
unfoldable pub validate_service_claims : Claims → Result (Unit {0})
unfolding validate_service_origin_claims
validate_service_claims claims = do
  validate_service_origin_claims claims
  reject (not (claims.client_id == claims.subject)) (sentinel (verifier client_id_mismatch))

-- validateOriginClaims
unfoldable pub validate_origin_claims : Claims → Result (Unit {0})
unfolding validate_external_origin_claims validate_service_claims
validate_origin_claims claims =
    if claims.token_use == token_use_tenant_access
      || claims.token_use == token_use_event_access
      || claims.token_use == token_use_registration
    then validate_external_origin_claims claims
    else if claims.token_use == token_use_service
    then validate_service_claims claims
    else err (detail (sentinel (root unsupported_token_use)) claims.token_use)

abbrev invalid_claims : Error → Error
invalid_claims e =
    wrap (sentinel (verifier VerifierError.invalid_token))
      (wrap (sentinel (jwt JwtError.token_invalid_claims)) e)

-- The checks of `verify` once the token is parsed.
unfoldable pub validate_claims : String → Claims → Result Claims
validate_claims audience claims = do
  map_err invalid_claims (match_audience claims.audience audience)
  validate_registered_claims claims
  validate_common_claims claims
  validate_binding claims.token_use claims.tenant_public_id claims.event_public_id
  validate_origin_claims claims
  ok claims
