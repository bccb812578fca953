-- ===== src/Issuer/Derive.antt =====
-- The claim set of each kind of token: issuer/external.go, issuer/service.go, and registeredClaims
-- of issuer/signer.go.
pub mod Inversion
pub mod Internal
pub mod Lifetime
use internal_jwt_handling.Base.{String, [], ◌∷◌, Option, none, some, ◌==◌, not, if◌then◌else◌}
use internal_jwt_handling.Errors.{
  Error, sentinel, detail, wrap, issuer, generate_id, source_expired,
}
use internal_jwt_handling.Time.{Time, Duration, add, after, before}
use internal_jwt_handling.Result.{Result, ok, err, reject}
use internal_jwt_handling.Io.{Io, ◌>>=◌, ◌>>◌, lift, map_error}
use internal_jwt_handling.Claims.{Claims, RegisteredClaims, token_use_service}
use internal_jwt_handling.Issuer.Model.{
  Outside, Issuer, ExternalTokenInput, UserOriginServiceInput, MachineOriginServiceInput,
}
use internal_jwt_handling.Issuer.Validate.{
  validate_external_token, validate_user_origin_service, validate_machine_origin_service,
}

abbrev id_error : String → Error → Error
id_error what e = wrap (detail (sentinel (issuer generate_id)) what) e

-- `expiresAt` of externalTokenClaims: the earlier of the issuer's lifetime and the source's end.
abbrev pub capped_expiry : Time → Duration → Time → Time
capped_expiry now ttl source_expires_at =
    let expires_at = add now ttl in
    if before source_expires_at expires_at then source_expires_at else expires_at

-- `originSub` of userOriginServiceClaims.
abbrev pub origin_sub_of : Claims → String
origin_sub_of context = if context.origin_sub == "" then context.subject else context.origin_sub

module _ {W Private : Type 0} (out : Outside W Private) where
  -- registeredClaims
  unfoldable pub registered_claims : String → String → String → Time → Time → Io W RegisteredClaims
  registered_claims issuer_id audience subject now expires_at = do
    jti ← map_error (id_error "jti") out.new_v7
    lift (
        ok (record {
          issuer = issuer_id;
          subject = subject;
          audience = audience ∷ [];
          expires_at = some (out.numeric_date expires_at);
          not_before = some (out.numeric_date now);
          issued_at = some (out.numeric_date now);
          id = jti;
        }))

  -- machineOriginTxn
  unfoldable pub machine_origin_txn : Option Claims → Io W String
  machine_origin_txn none = map_error (id_error "txn") out.new_v7
  machine_origin_txn (some context) = lift (ok context.txn)

  module _ {Public : Type 0} (i : Issuer W Private Public) where
    -- externalTokenClaims
    unfoldable pub external_token_claims : ExternalTokenInput → Time → Io W Claims
    unfolding registered_claims
    external_token_claims input now = do
      lift (validate_external_token input)
      txn ← map_error (id_error "txn") out.new_v7
      lift (reject (not (after input.source_expires_at now)) (sentinel (issuer source_expired)))
      registered ←
          registered_claims i.issuer_id input.audience input.subject now
            (capped_expiry now i.ttl input.source_expires_at)
      lift (
          ok (record {
            registered = registered;
            token_use = input.token_use;
            client_id = input.client_id;
            txn = txn;
            scope = input.scope;
            source_jti = input.source_jti;
            source_expires_at = some (out.numeric_date input.source_expires_at);
            origin_sub = "";
            tenant_public_id = input.tenant_public_id;
            event_public_id = input.event_public_id;
          }))

    -- userOriginServiceClaims
    unfoldable pub user_origin_service_claims : UserOriginServiceInput → Time → Io W Claims
    unfolding registered_claims
    user_origin_service_claims input now = do
      lift (validate_user_origin_service input now)
      registered ←
          registered_claims i.issuer_id input.audience input.caller_service now (add now i.ttl)
      lift (
          ok (record {
            registered = registered;
            token_use = token_use_service;
            client_id = input.caller_service;
            txn = input.context.txn;
            scope = input.context.scope;
            source_jti = input.context.id;
            source_expires_at = none;
            origin_sub = origin_sub_of input.context;
            tenant_public_id = input.context.tenant_public_id;
            event_public_id = input.context.event_public_id;
          }))

    -- machineOriginServiceClaims
    unfoldable pub machine_origin_service_claims : MachineOriginServiceInput → Time → Io W Claims
    unfolding registered_claims machine_origin_txn
    machine_origin_service_claims input now = do
      lift (validate_machine_origin_service input now)
      txn ← machine_origin_txn input.context
      registered ←
          registered_claims i.issuer_id input.audience input.caller_service now (add now i.ttl)
      lift (
          ok (record {
            registered = registered;
            token_use = token_use_service;
            client_id = input.caller_service;
            txn = txn;
            scope = "";
            source_jti = "";
            source_expires_at = none;
            origin_sub = "";
            tenant_public_id = "";
            event_public_id = "";
          }))
