-- ===== src/Issuer/Issue.antt =====
-- Signing and publishing: issuer/signer.go and the methods of issuer/issuer.go.
pub mod Derived
pub mod Signing
use internal_jwt_handling.Base.{String}
use internal_jwt_handling.Errors.{
  sentinel, wrap, issuer, IssuerError, key_provider, missing_signing_key_id,
}
use internal_jwt_handling.Result.{ok, require, require_some}
use internal_jwt_handling.Io.{Io, ◌>>=◌, ◌>>◌, lift, map_error, read_clock}
use internal_jwt_handling.Wire.{Payload}
use internal_jwt_handling.Claims.{Claims}
use internal_jwt_handling.Issuer.Model.{
  KeyProvider, Outside, Issuer, ExternalTokenInput, UserOriginServiceInput,
  MachineOriginServiceInput, Issued,
}
use internal_jwt_handling.Issuer.SignedClaims.{new_signed_claims, payload}
use internal_jwt_handling.Issuer.Derive.{
  external_token_claims, user_origin_service_claims, machine_origin_service_claims,
}

module _ {W Private : Type 0} (out : Outside W Private) where
  -- The method `sign`
  unfoldable pub sign_with :
      {Public : Type 0} → KeyProvider W Private Public → Payload → Io W String
  sign_with provider claims = do
    keys ← map_error (wrap (sentinel (issuer key_provider))) provider
    lift (require keys.signing.key_id (sentinel (issuer missing_signing_key_id)))
    key ← lift (require_some keys.signing.key (sentinel (issuer IssuerError.missing_signing_key)))
    map_error (wrap (sentinel (issuer IssuerError.sign)))
        (out.signed_string keys.signing.key_id key claims)

  module _ {Public : Type 0} (i : Issuer W Private Public) where
    -- The method `issue`
    unfoldable pub issue : Claims → Io W Issued
    unfolding new_signed_claims sign_with
    issue claims = do
      signable ← lift (new_signed_claims claims)
      token ← sign_with i.keys (payload out.numeric_date signable)
      lift (ok (record { token = token; claims = claims }))

    -- IssueFromExternal
    unfoldable pub issue_from_external : ExternalTokenInput → Io W Issued
    unfolding issue
    issue_from_external input = do
      now ← read_clock i.clock
      claims ← external_token_claims out i input now
      issue claims

    -- IssueUserOriginService
    unfoldable pub issue_user_origin_service : UserOriginServiceInput → Io W Issued
    unfolding issue
    issue_user_origin_service input = do
      now ← read_clock i.clock
      claims ← user_origin_service_claims out i input now
      issue claims

    -- IssueMachineOriginService
    unfoldable pub issue_machine_origin_service : MachineOriginServiceInput → Io W Issued
    unfolding issue
    issue_machine_origin_service input = do
      now ← read_clock i.clock
      claims ← machine_origin_service_claims out i input now
      issue claims
