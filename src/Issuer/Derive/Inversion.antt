-- ===== src/Issuer/Derive/Inversion.antt =====
-- What a successful derivation of a claim set has checked and called, and the claims it has built.
use internal_jwt_handling.Base.{String, [], ◌∷◌, none, some, ◌≡◌, true, inl, inr, arith}
use internal_jwt_handling.Time.{Time, add, after}
use internal_jwt_handling.Result.{ok}
use internal_jwt_handling.Io.Inversion.{outcome}
use internal_jwt_handling.Claims.{Claims, RegisteredClaims, token_use_service}
use internal_jwt_handling.Issuer.Model.{
  Outside, Issuer, ExternalTokenInput, UserOriginServiceInput, MachineOriginServiceInput,
}
use internal_jwt_handling.Issuer.Validate.{
  validate_external_token, validate_user_origin_service, validate_machine_origin_service,
}
use internal_jwt_handling.Issuer.Derive.{
  capped_expiry, origin_sub_of, registered_claims, machine_origin_txn, external_token_claims,
  user_origin_service_claims, machine_origin_service_claims,
}

module _ {W Private : Type 0} (out : Outside W Private) where
  -- The registered claims of a token: one audience, the issuer, and the times.
  abbrev pub registered_of : String → String → String → Time → Time → String → RegisteredClaims
  registered_of issuer_id audience subject now expires_at jti = record {
    issuer = issuer_id;
    subject = subject;
    audience = audience ∷ [];
    expires_at = some (out.numeric_date expires_at);
    not_before = some (out.numeric_date now);
    issued_at = some (out.numeric_date now);
    id = jti;
  }

  pub registered_claims-eq-ok :
      (issuer_id audience subject : String) (now expires_at : Time) (w w' : W)
      (r : RegisteredClaims)
      → registered_claims out issuer_id audience subject now expires_at w ≡ (ok r, w')
      → (jti : String) × (out.new_v7 w ≡ (ok jti, w'))
        × (r ≡ registered_of issuer_id audience subject now expires_at jti)
  unfolding registered_claims
  registered_claims-eq-ok issuer_id audience subject now expires_at w w' r h =
      elim (outcome (out.new_v7 w)) [
        | inl (jti, u, e) ↦ (jti, ground arith, ground arith)
        | inr (x, u, e) ↦ absurd (ground arith)
      ]

  module _ {Public : Type 0} (i : Issuer W Private Public) where
    pub record FromExternal (input : ExternalTokenInput) (now : Time) (w w' : W) (c : Claims)
        : Type 0 where
      pub valid : validate_external_token input ≡ ok tt
      pub txn : String
      pub jti : String
      pub between : W
      pub txn_made : out.new_v7 w ≡ (ok txn, between)
      pub jti_made : out.new_v7 between ≡ (ok jti, w')
      pub source_lives : after input.source_expires_at now ≡ true
      pub claims : c ≡ record {
        registered =
            registered_of i.issuer_id input.audience input.subject now
              (capped_expiry now i.ttl input.source_expires_at)
              jti;
        token_use = input.token_use;
        client_id = input.client_id;
        txn = txn;
        scope = input.scope;
        source_jti = input.source_jti;
        source_expires_at = some (out.numeric_date input.source_expires_at);
        origin_sub = "";
        tenant_public_id = input.tenant_public_id;
        event_public_id = input.event_public_id;
      }

    pub external_token_claims-FromExternal :
        (input : ExternalTokenInput) (now : Time) (w w' : W) (c : Claims)
        → external_token_claims out i input now w ≡ (ok c, w')
        → FromExternal input now w w' c
    unfolding external_token_claims registered_claims
    external_token_claims-FromExternal input now w w' c h = elim (outcome (out.new_v7 w)) [
      | inl (txn, u, e) ↦ elim (outcome (out.new_v7 u)) [
        | inl (jti, v, f) ↦ record {
          valid = ground arith;
          txn = txn;
          jti = jti;
          between = u;
          txn_made = e;
          jti_made = ground arith;
          source_lives = ground arith;
          claims = ground arith;
        }
        | inr (x, v, f) ↦ absurd (ground arith)
      ]
      | inr (x, u, e) ↦ absurd (ground arith)
    ]

    pub record FromUser (input : UserOriginServiceInput) (now : Time) (w w' : W) (c : Claims)
        : Type 0 where
      pub valid : validate_user_origin_service input now ≡ ok tt
      pub jti : String
      pub jti_made : out.new_v7 w ≡ (ok jti, w')
      pub claims : c ≡ record {
        registered =
            registered_of i.issuer_id input.audience input.caller_service now (add now i.ttl) jti;
        token_use = token_use_service;
        client_id = input.caller_service;
        txn = input.context.txn;
        scope = input.context.scope;
        source_jti = input.context.id;
        source_expires_at = none;
        origin_sub = origin_sub_of input.context;
        tenant_public_id = input.context.tenant_public_id;
        event_public_id = input.context.event_public_id;
      }

    pub user_origin_service_claims-FromUser :
        (input : UserOriginServiceInput) (now : Time) (w w' : W) (c : Claims)
        → user_origin_service_claims out i input now w ≡ (ok c, w')
        → FromUser input now w w' c
    unfolding user_origin_service_claims registered_claims
    user_origin_service_claims-FromUser input now w w' c h = elim (outcome (out.new_v7 w)) [
      | inl (jti, u, e) ↦ record {
        valid = ground arith;
        jti = jti;
        jti_made = ground arith;
        claims = ground arith;
      }
      | inr (x, u, e) ↦ absurd (ground arith)
    ]

    pub record FromMachine (input : MachineOriginServiceInput) (now : Time) (w w' : W) (c : Claims)
        : Type 0 where
      pub valid : validate_machine_origin_service input now ≡ ok tt
      pub txn : String
      pub jti : String
      pub between : W
      pub txn_made : machine_origin_txn out input.context w ≡ (ok txn, between)
      pub jti_made : out.new_v7 between ≡ (ok jti, w')
      pub claims : c ≡ record {
        registered =
            registered_of i.issuer_id input.audience input.caller_service now (add now i.ttl) jti;
        token_use = token_use_service;
        client_id = input.caller_service;
        txn = txn;
        scope = "";
        source_jti = "";
        source_expires_at = none;
        origin_sub = "";
        tenant_public_id = "";
        event_public_id = "";
      }

    pub machine_origin_service_claims-FromMachine :
        (input : MachineOriginServiceInput) (now : Time) (w w' : W) (c : Claims)
        → machine_origin_service_claims out i input now w ≡ (ok c, w')
        → FromMachine input now w w' c
    unfolding machine_origin_service_claims registered_claims
    machine_origin_service_claims-FromMachine input now w w' c h =
        elim (outcome (machine_origin_txn out input.context w)) [
          | inl (txn, u, e) ↦ elim (outcome (out.new_v7 u)) [
            | inl (jti, v, f) ↦ record {
              valid = ground arith;
              txn = txn;
              jti = jti;
              between = u;
              txn_made = e;
              jti_made = ground arith;
              claims = ground arith;
            }
            | inr (x, v, f) ↦ absurd (ground arith)
          ]
          | inr (x, u, e) ↦ absurd (ground arith)
        ]
