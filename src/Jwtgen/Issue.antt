-- ===== src/Jwtgen/Issue.antt =====
-- jwtgen/jwtgen.go and jwtgen/txn.go: which Issue method mints the token of a configuration, and the
-- context token that is made up for it.
use internal_jwt_handling.Base.{String, [], ◌∷◌, Option, none, some, ◌==◌, not, if◌then◌else◌}
use internal_jwt_handling.Time.{Time, Duration, add}
use internal_jwt_handling.Result.{Result, ok, err}
use internal_jwt_handling.Io.{Io, Clock}
use internal_jwt_handling.Claims.{Claims, token_use_service}
use internal_jwt_handling.Issuer.Model.{Outside, Issuer, Issued, ExternalTokenInput}
use internal_jwt_handling.Issuer.Issue.{
  issue_from_external, issue_user_origin_service, issue_machine_origin_service,
}
use internal_jwt_handling.Jwtgen.Generator.{
  Config, or_default, default_subject, default_client_id, default_caller, default_source_jti,
}

abbrev pub fallback_txn : String
fallback_txn = "00000000-0000-7000-8000-000000000000"

abbrev pub or_fallback : {W : Type 0} → Result String × W → String × W
or_fallback (ok txn, w) = (txn, w)
or_fallback (err e, w) = (fallback_txn, w)

-- serviceContext, once the clock and newTxn have been called; `date` is jwt.NewNumericDate.
abbrev pub context_of : (Time → Time) → Config → String → Duration → Time → String → Claims
context_of date config caller ttl now txn = record {
  registered = record {
    issuer = config.issuer;
    subject = caller;
    audience = caller ∷ [];
    expires_at = some (date (add now ttl));
    not_before = some (date now);
    issued_at = some (date now);
    id = default_source_jti;
  };
  token_use = token_use_service;
  client_id = caller;
  txn = or_default config.txn txn;
  scope = "";
  source_jti = "";
  source_expires_at = none;
  origin_sub = "";
  tenant_public_id = "";
  event_public_id = "";
}

-- The fields that `issue` sets on the context of a user-origin re-issue.
abbrev pub with_origin : Config → Claims → Claims
with_origin config context = record context {
  scope = config.scope;
  source_jti = default_source_jti;
  origin_sub = config.origin_sub;
  tenant_public_id = config.tenant_public_id;
  event_public_id = config.event_public_id;
}

abbrev pub external_input_of : Config → Time → ExternalTokenInput
external_input_of config source_expires_at = record {
  audience = config.audience;
  token_use = config.token_use;
  subject = or_default config.subject default_subject;
  client_id = default_client_id;
  scope = config.scope;
  source_jti = default_source_jti;
  source_expires_at = source_expires_at;
  tenant_public_id = config.tenant_public_id;
  event_public_id = config.event_public_id;
}

-- `system_clock` is time.Now
module _ {W Private : Type 0} (out : Outside W Private) (system_clock : Clock W) where
  -- newTxn
  unfoldable pub new_txn : W → String × W
  new_txn w = or_fallback (out.new_v7 w)

  -- serviceContext
  unfoldable pub service_context : Config → String → Duration → W → Claims × W
  unfolding new_txn
  service_context config caller ttl w =
      let (now, u) = system_clock w in
      let (txn, v) = new_txn u in (context_of out.numeric_date config caller ttl now txn, v)

  -- machineOriginContext
  unfoldable pub machine_origin_context : Config → String → Duration → W → Option Claims × W
  unfolding service_context
  machine_origin_context config caller ttl w =
      if config.txn == ""
      then (none, w)
      else (let (context, v) = service_context config caller ttl w in (some context, v))

  module _ {Public : Type 0} (i : Issuer W Private Public) where
    abbrev mint_external : Config → Duration → Io W Issued
    mint_external config ttl w =
        let (now, u) = system_clock w in
        issue_from_external out i (external_input_of config (add now ttl)) u

    abbrev mint_machine : Config → String → Duration → Io W Issued
    mint_machine config caller ttl w =
        let (context, v) = machine_origin_context config caller ttl w in
        issue_machine_origin_service out i
          (record { audience = config.audience; caller_service = caller; context = context }) v

    abbrev mint_user : Config → String → Duration → Io W Issued
    mint_user config caller ttl w =
        let (context, v) = service_context config caller ttl w in
        issue_user_origin_service out i
          (record {
            audience = config.audience;
            caller_service = caller;
            context = with_origin config context;
          })
          v

    -- The method `issue`
    unfoldable pub issue : Config → Duration → Io W Issued
    unfolding service_context machine_origin_context
    issue config ttl w =
        if not (config.token_use == token_use_service)
        then mint_external config ttl w
        else if config.origin_sub == ""
        then mint_machine config (or_default config.subject default_caller) ttl w
        else mint_user config (or_default config.subject default_caller) ttl w
