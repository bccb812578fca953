-- ===== src/Issuer/Derive/Internal.antt =====
-- Every claim set that the issuer derives is one that the verifier's checks accept.
use internal_jwt_handling.Base.{
  String, ◌≡◌, refl, ◌≢◌, inl, inr, arith, eq_iff, subst, sym, ap, Option-cases,
}
use internal_jwt_handling.Time.{Time}
use internal_jwt_handling.Result.{ok}
use internal_jwt_handling.Io.Inversion.{outcome}
use internal_jwt_handling.Claims.{Claims, token_use_service}
use internal_jwt_handling.Claims.Binding.{IsBound}
use internal_jwt_handling.Verifier.WellFormed.{IsInternal}
use internal_jwt_handling.Issuer.Model.{
  Outside, Issuer, ExternalTokenInput, UserOriginServiceInput, MachineOriginServiceInput,
}
use internal_jwt_handling.Issuer.Validate.{validate_machine_origin_service}
use internal_jwt_handling.Issuer.Derive.{
  external_token_claims, user_origin_service_claims, machine_origin_service_claims,
  machine_origin_txn, origin_sub_of,
}
use internal_jwt_handling.Issuer.Derive.Inversion.{
  external_token_claims-FromExternal, user_origin_service_claims-FromUser,
  machine_origin_service_claims-FromMachine,
}
use internal_jwt_handling.Issuer.Validate.Accepted.{
  validate_external_token-IsConvertible, validate_user_origin_service-IsReissuable,
  validate_machine_origin_service-caller, machine_context_txn,
}

-- The origin user of a re-issue is never empty.
pub origin_sub_of-ne-empty : (c : Claims) → c.subject ≢ "" → origin_sub_of c ≢ ""
origin_sub_of-ne-empty c h = ground (arith, eq_iff c.origin_sub "")

-- The binding of a context token carries over to a service token.
IsBound-service : (u t e : String) → IsBound u t e → IsBound token_use_service t e
IsBound-service u t e b = ground arith

module _ {W Private : Type 0} (out : Outside W Private)
    (filled : (w : W) (s : String) → (out.new_v7 w).0 ≡ ok s → s ≢ "") {Public : Type 0}
    (i : Issuer W Private Public) where
  -- The claim set of an external conversion is that of an internal JWT for the input's audience.
  pub external_token_claims-IsInternal :
      (input : ExternalTokenInput) (now : Time) (w w' : W) (c : Claims)
      → external_token_claims out i input now w ≡ (ok c, w')
      → IsInternal input.audience c
  external_token_claims-IsInternal input now w w' c h =
      let f = external_token_claims-FromExternal out i input now w w' c h in
      let v = validate_external_token-IsConvertible input f.valid in
      subst (IsInternal input.audience) (sym f.claims) (record {
        one_audience = refl;
        registered = record {
          subject = v.subject;
          id = filled f.between f.jti (ap (λ p. p.0) f.jti_made);
          not_before = cc;
          issued_at = cc;
        };
        client_id = v.client_id;
        txn = filled w f.txn (ap (λ p. p.0) f.txn_made);
        bound = v.bound;
        origin = inl (record {
          not_service = v.not_service;
          scope = v.scope;
          source_jti = v.source_jti;
          source_expires_at = cc;
          origin_sub = refl;
        });
      })

  -- The claim set of a user-origin re-issue is that of an internal JWT for the input's audience.
  pub user_origin_service_claims-IsInternal :
      (input : UserOriginServiceInput) (now : Time) (w w' : W) (c : Claims)
      → user_origin_service_claims out i input now w ≡ (ok c, w')
      → IsInternal input.audience c
  user_origin_service_claims-IsInternal input now w w' c h =
      let f = user_origin_service_claims-FromUser out i input now w w' c h in
      let v = validate_user_origin_service-IsReissuable input now f.valid in
      subst (IsInternal input.audience) (sym f.claims) (record {
        one_audience = refl;
        registered = record {
          subject = v.caller_service;
          id = filled w f.jti (ap (λ p. p.0) f.jti_made);
          not_before = cc;
          issued_at = cc;
        };
        client_id = v.caller_service;
        txn = v.txn;
        bound = IsBound-service _ _ _ v.bound;
        origin = inr (
            inl (record {
              service = refl;
              origin_sub = origin_sub_of-ne-empty input.context v.subject;
              scope = v.scope;
              source_jti = v.id;
              caller = refl;
            }));
      })

  machine_txn-ne-empty :
      (input : MachineOriginServiceInput) (now : Time) (w u : W) (txn : String)
      → validate_machine_origin_service input now ≡ ok tt
      → machine_origin_txn out input.context w ≡ (ok txn, u)
      → txn ≢ ""
  unfolding validate_machine_origin_service machine_origin_txn
  machine_txn-ne-empty input now w u txn valid made = elim (Option-cases input.context) [
    | inl new ↦ elim (outcome (out.new_v7 w)) [
      | inl (s, v, e) ↦ ground (arith, filled w s (ap (λ p. p.0) e))
      | inr (x, v, e) ↦ absurd (ground arith)
    ]
    | inr (context, given) ↦
        ground (arith, machine_context_txn context input.caller_service now, eq_iff context.txn "")
  ]

  -- The claim set of a machine-origin token is that of an internal JWT for the input's audience.
  pub machine_origin_service_claims-IsInternal :
      (input : MachineOriginServiceInput) (now : Time) (w w' : W) (c : Claims)
      → machine_origin_service_claims out i input now w ≡ (ok c, w')
      → IsInternal input.audience c
  machine_origin_service_claims-IsInternal input now w w' c h =
      let f = machine_origin_service_claims-FromMachine out i input now w w' c h in
      let caller : input.caller_service ≢ "" =
        validate_machine_origin_service-caller input now f.valid in
      subst (IsInternal input.audience) (sym f.claims) (record {
        one_audience = refl;
        registered = record {
          subject = caller;
          id = filled f.between f.jti (ap (λ p. p.0) f.jti_made);
          not_before = cc;
          issued_at = cc;
        };
        client_id = caller;
        txn = machine_txn-ne-empty input now w f.between f.txn f.valid f.txn_made;
        bound = inr (inr (inr (refl, λ e. absurd (e refl))));
        origin = inr (
            inr (record {
              service = refl;
              origin_sub = refl;
              scope = refl;
              source_jti = refl;
              tenant = refl;
              event = refl;
              caller = refl;
            }));
      })
