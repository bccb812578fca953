-- ===== src/Issuer/Validate/Accepted.antt =====
-- What the input checks of the issuer say of an input that passes.
use internal_jwt_handling.Base.{
  String, some, ◌≡◌, ◌≢◌, inl, inr, arith, eq_iff, ◌<◌, In, contains_iff, Option-cases,
}
use internal_jwt_handling.Time.{Time}
use internal_jwt_handling.Result.{ok}
use internal_jwt_handling.Claims.{
  Claims, token_use_service, token_use_tenant_access, token_use_event_access,
  token_use_registration,
}
use internal_jwt_handling.Claims.Binding.{IsBound, validate_binding-IsBound_iff, token_uses_differ}
use internal_jwt_handling.Issuer.Model.{
  ExternalTokenInput, UserOriginServiceInput, MachineOriginServiceInput,
}
use internal_jwt_handling.Issuer.Validate.{
  validate_context_token, validate_external_token, validate_user_origin_context_use,
  validate_user_origin_service, validate_machine_context, validate_machine_origin_service,
}

-- What validateExternalToken asks of its input.
pub record IsConvertible (input : ExternalTokenInput) : Type 0 where
  pub audience : input.audience ≢ ""
  pub subject : input.subject ≢ ""
  pub client_id : input.client_id ≢ ""
  pub scope : input.scope ≢ ""
  pub source_jti : input.source_jti ≢ ""
  pub source_expires_at : input.source_expires_at ≢ 0
  pub not_service : input.token_use ≢ token_use_service
  pub bound : IsBound input.token_use input.tenant_public_id input.event_public_id

pub validate_external_token-IsConvertible :
    (input : ExternalTokenInput) → validate_external_token input ≡ ok tt → IsConvertible input
unfolding validate_external_token
validate_external_token-IsConvertible input h = ground (
  arith,
  eq_iff input.audience "",
  eq_iff input.subject "",
  eq_iff input.client_id "",
  eq_iff input.scope "",
  eq_iff input.source_jti "",
  eq_iff input.token_use token_use_service,
  validate_binding-IsBound_iff input.token_use input.tenant_public_id input.event_public_id,
)

-- What validateContextToken asks: the context token lives, and names the calling service.
pub record IsHeld (c : Claims) (caller : String) (now : Time) : Type 0 where
  pub exp : Time
  pub expires : c.expires_at ≡ some exp
  pub lives : now < exp
  pub held : In caller c.audience

pub validate_context_token-IsHeld :
    (c : Claims) (caller : String) (now : Time)
    → validate_context_token c caller now ≡ ok tt
    → IsHeld c caller now
unfolding validate_context_token
validate_context_token-IsHeld c caller now h = elim (Option-cases c.expires_at) [
  | inl missed ↦ absurd (ground arith)
  | inr (exp, expires) ↦ record {
    exp = exp;
    expires = expires;
    lives = ground arith;
    held = ground (arith, contains_iff c.audience caller);
  }
]

-- What validateUserOriginService asks of its input.
pub record IsReissuable (input : UserOriginServiceInput) (now : Time) : Type 0 where
  pub audience : input.audience ≢ ""
  pub caller_service : input.caller_service ≢ ""
  pub held : IsHeld input.context input.caller_service now
  pub user_origin : input.context.token_use ≡ token_use_service → input.context.origin_sub ≢ ""
  pub bound :
      IsBound input.context.token_use input.context.tenant_public_id input.context.event_public_id
  pub scope : input.context.scope ≢ ""
  pub txn : input.context.txn ≢ ""
  pub source_jti : input.context.source_jti ≢ ""
  pub id : input.context.id ≢ ""
  pub subject : input.context.subject ≢ ""

context_use_sound :
    (c : Claims)
    → validate_user_origin_context_use c ≡ ok tt
    → (c.token_use ≡ token_use_service → c.origin_sub ≢ "")
      × IsBound c.token_use c.tenant_public_id c.event_public_id
unfolding validate_user_origin_context_use
context_use_sound c h = ground (
  arith,
  token_uses_differ,
  eq_iff c.token_use token_use_tenant_access,
  eq_iff c.token_use token_use_event_access,
  eq_iff c.token_use token_use_registration,
  eq_iff c.token_use token_use_service,
  eq_iff c.origin_sub "",
  validate_binding-IsBound_iff c.token_use c.tenant_public_id c.event_public_id,
)

pub validate_user_origin_service-IsReissuable :
    (input : UserOriginServiceInput) (now : Time)
    → validate_user_origin_service input now ≡ ok tt
    → IsReissuable input now
unfolding validate_user_origin_service
validate_user_origin_service-IsReissuable input now h =
    let c = input.context in
    let held : validate_context_token c input.caller_service now ≡ ok tt = ground arith in
    let used : validate_user_origin_context_use c ≡ ok tt = ground arith in
    let (user_origin, bound) = context_use_sound c used in
    record {
      audience = ground (arith, eq_iff input.audience "");
      caller_service = ground (arith, eq_iff input.caller_service "");
      held = validate_context_token-IsHeld c input.caller_service now held;
      user_origin = user_origin;
      bound = bound;
      scope = ground (arith, eq_iff c.scope "");
      txn = ground (arith, eq_iff c.txn "");
      source_jti = ground (arith, eq_iff c.source_jti "");
      id = ground (arith, eq_iff c.id "");
      subject = ground (arith, eq_iff c.subject "");
    }

pub validate_machine_origin_service-caller :
    (input : MachineOriginServiceInput) (now : Time)
    → validate_machine_origin_service input now ≡ ok tt
    → input.caller_service ≢ ""
unfolding validate_machine_origin_service
validate_machine_origin_service-caller input now h = ground (arith, eq_iff input.caller_service "")

pub machine_context_txn :
    (c : Claims) (caller : String) (now : Time)
    → validate_machine_context c caller now ≡ ok tt
    → c.txn ≢ ""
unfolding validate_machine_context
machine_context_txn c caller now h = ground (arith, eq_iff c.txn "")
