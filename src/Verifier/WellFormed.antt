-- ===== src/Verifier/WellFormed.antt =====
-- The claim set of an internal JWT after docs/internal_jwt.md, and the proof that the verifier's
-- checks decide it. (The document also keeps src_exp off service tokens; the verifier does not look.)
use internal_jwt_handling.Base.{
  String, List, [], ◌∷◌, none, ◌≡◌, ◌≢◌, ◌↔◌, ◌⊎◌, refl, arith, eq_iff,
}
use internal_jwt_handling.Result.{ok}
use internal_jwt_handling.Claims.{
  Claims, token_use_tenant_access, token_use_event_access, token_use_service,
  token_use_registration,
}
use internal_jwt_handling.Claims.Binding.{IsBound, validate_binding-IsBound_iff, token_uses_differ}
use internal_jwt_handling.Verifier.ClaimChecks.{
  match_audience, validate_registered_claims, validate_common_claims, validate_origin_claims,
  validate_claims,
}

-- A token converted from an external one.
pub record IsExternalOrigin (c : Claims) : Type 0 where
  pub not_service : c.token_use ≢ token_use_service
  pub scope : c.scope ≢ ""
  pub source_jti : c.source_jti ≢ ""
  pub source_expires_at : c.source_expires_at ≢ none
  pub origin_sub : c.origin_sub ≡ ""

-- A service token that goes back to a user.
pub record IsUserOrigin (c : Claims) : Type 0 where
  pub service : c.token_use ≡ token_use_service
  pub origin_sub : c.origin_sub ≢ ""
  pub scope : c.scope ≢ ""
  pub source_jti : c.source_jti ≢ ""
  pub caller : c.client_id ≡ c.subject

-- A service token that no user started.
pub record IsMachineOrigin (c : Claims) : Type 0 where
  pub service : c.token_use ≡ token_use_service
  pub origin_sub : c.origin_sub ≡ ""
  pub scope : c.scope ≡ ""
  pub source_jti : c.source_jti ≡ ""
  pub tenant : c.tenant_public_id ≡ ""
  pub event : c.event_public_id ≡ ""
  pub caller : c.client_id ≡ c.subject

pub record IsRegistered (c : Claims) : Type 0 where
  pub subject : c.subject ≢ ""
  pub id : c.id ≢ ""
  pub not_before : c.not_before ≢ none
  pub issued_at : c.issued_at ≢ none

-- The claim set of an internal JWT addressed to one audience.
pub record IsInternal (audience : String) (c : Claims) : Type 0 where
  pub one_audience : c.audience ≡ audience ∷ []
  pub registered : IsRegistered c
  pub client_id : c.client_id ≢ ""
  pub txn : c.txn ≢ ""
  pub bound : IsBound c.token_use c.tenant_public_id c.event_public_id
  pub origin : IsExternalOrigin c ⊎ IsUserOrigin c ⊎ IsMachineOrigin c

-- A list that passes both audience checks is the one wanted audience.
audience_iff :
    (c : Claims) (want : String)
    → ((match_audience c.audience want ≡ ok tt) × (validate_registered_claims c ≡ ok tt))
      ↔ ((c.audience ≡ want ∷ []) × IsRegistered c)
unfolding match_audience validate_registered_claims
audience_iff c want = audience_cases c want c.audience refl
  where
    audience_cases :
        (c : Claims) (want : String) (got : List String)
        → c.audience ≡ got
        → ((match_audience c.audience want ≡ ok tt) × (validate_registered_claims c ≡ ok tt))
          ↔ ((c.audience ≡ want ∷ []) × IsRegistered c)
    audience_cases c want [] e = ground (arith, eq_iff c.subject "", eq_iff c.id "")
    audience_cases c want (x ∷ []) e =
        ground (arith, eq_iff x want, eq_iff c.subject "", eq_iff c.id "")
    audience_cases c want (x ∷ y ∷ r) e =
        ground (arith, eq_iff x want, eq_iff c.subject "", eq_iff c.id "")

validate_common_iff :
    (c : Claims)
    → (validate_common_claims c ≡ ok tt) ↔ ((c.token_use ≢ "") × (c.client_id ≢ "") × (c.txn ≢ ""))
unfolding validate_common_claims
validate_common_iff c =
    ground (arith, eq_iff c.token_use "", eq_iff c.client_id "", eq_iff c.txn "")

validate_origin_iff :
    (c : Claims)
    → IsBound c.token_use c.tenant_public_id c.event_public_id
    → (validate_origin_claims c ≡ ok tt) ↔ (IsExternalOrigin c ⊎ IsUserOrigin c ⊎ IsMachineOrigin c)
unfolding validate_origin_claims
validate_origin_iff c b = ground (
  arith,
  token_uses_differ,
  eq_iff c.token_use token_use_tenant_access,
  eq_iff c.token_use token_use_event_access,
  eq_iff c.token_use token_use_registration,
  eq_iff c.token_use token_use_service,
  eq_iff c.scope "",
  eq_iff c.source_jti "",
  eq_iff c.origin_sub "",
  eq_iff c.tenant_public_id "",
  eq_iff c.event_public_id "",
  eq_iff c.client_id c.subject,
)

IsBound-ne-empty :
    (c : Claims) → IsBound c.token_use c.tenant_public_id c.event_public_id → c.token_use ≢ ""
IsBound-ne-empty c b = ground (
  arith,
  eq_iff "" token_use_tenant_access,
  eq_iff "" token_use_event_access,
  eq_iff "" token_use_registration,
  eq_iff "" token_use_service,
)

-- The checks after parsing pass exactly the claim sets that have the wanted audience alone, sub, jti,
-- nbf, iat, client_id and txn, a token_use bound as documented, and the claims of one of the three
-- origins.
pub validate_claims-IsInternal_iff :
    (audience : String) (c : Claims) → (validate_claims audience c ≡ ok c) ↔ IsInternal audience c
unfolding validate_claims
validate_claims-IsInternal_iff audience c = ground (
  arith,
  audience_iff c audience,
  validate_common_iff c,
  validate_binding-IsBound_iff c.token_use c.tenant_public_id c.event_public_id,
  validate_origin_iff c,
  IsBound-ne-empty c,
)
