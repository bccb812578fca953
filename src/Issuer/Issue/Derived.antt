-- ===== src/Issuer/Issue/Derived.antt =====
-- The Issue methods of issuer/issuer.go derive a claim set and issue it.
use internal_jwt_handling.Base.{◌≡◌, arith, inl, inr}
use internal_jwt_handling.Result.{ok}
use internal_jwt_handling.Io.Inversion.{outcome}
use internal_jwt_handling.Claims.{Claims}
use internal_jwt_handling.Issuer.Model.{
  Outside, Issuer, Issued, ExternalTokenInput, UserOriginServiceInput, MachineOriginServiceInput,
}
use internal_jwt_handling.Issuer.Derive.{
  external_token_claims, user_origin_service_claims, machine_origin_service_claims,
}
use internal_jwt_handling.Issuer.Issue.{
  issue, issue_from_external, issue_user_origin_service, issue_machine_origin_service,
}

module _ {W Private Public : Type 0} (out : Outside W Private) (i : Issuer W Private Public) where
  pub issue_from_external-Derived :
      (input : ExternalTokenInput) (w w' : W) (issued : Issued)
      → issue_from_external out i input w ≡ (ok issued, w')
      → (c : Claims) × (v : W) × (external_token_claims out i input (i.clock w).0 (i.clock w).1
          ≡ (ok c, v))
        × (issue out i c v ≡ (ok issued, w'))
  unfolding issue_from_external
  issue_from_external-Derived input w w' issued h =
      elim (outcome (external_token_claims out i input (i.clock w).0 (i.clock w).1)) [
        | inr (e, v, lost) ↦ absurd (ground arith)
        | inl (c, v, derived) ↦ (c, v, derived, ground arith)
      ]

  pub issue_user_origin_service-Derived :
      (input : UserOriginServiceInput) (w w' : W) (issued : Issued)
      → issue_user_origin_service out i input w ≡ (ok issued, w')
      → (c : Claims) × (v : W) × (user_origin_service_claims out i input (i.clock w).0 (i.clock w).1
          ≡ (ok c, v))
        × (issue out i c v ≡ (ok issued, w'))
  unfolding issue_user_origin_service
  issue_user_origin_service-Derived input w w' issued h =
      elim (outcome (user_origin_service_claims out i input (i.clock w).0 (i.clock w).1)) [
        | inr (e, v, lost) ↦ absurd (ground arith)
        | inl (c, v, derived) ↦ (c, v, derived, ground arith)
      ]

  pub issue_machine_origin_service-Derived :
      (input : MachineOriginServiceInput) (w w' : W) (issued : Issued)
      → issue_machine_origin_service out i input w ≡ (ok issued, w')
      → (c : Claims) × (v : W) × (machine_origin_service_claims out i input
            (i.clock w).0
            (i.clock w).1
          ≡ (ok c, v))
        × (issue out i c v ≡ (ok issued, w'))
  unfolding issue_machine_origin_service
  issue_machine_origin_service-Derived input w w' issued h =
      elim (outcome (machine_origin_service_claims out i input (i.clock w).0 (i.clock w).1)) [
        | inr (e, v, lost) ↦ absurd (ground arith)
        | inl (c, v, derived) ↦ (c, v, derived, ground arith)
      ]
