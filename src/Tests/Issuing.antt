-- ===== src/Tests/Issuing.antt =====
-- The issuer package at concrete inputs.
use internal_jwt_handling.Base.{ℕ, ◌≡◌, ◌≢◌, refl, [], ◌∷◌, none, some, String, eq_iff, arith, ◌*◌}
use internal_jwt_handling.Result.{ok}
use internal_jwt_handling.Time.{second, add}
use internal_jwt_handling.Claims.{Claims, validate_binding}
use internal_jwt_handling.Verifier.WellFormed.{IsInternal}
use internal_jwt_handling.Issuer.Validate.{
  validate_external_token, validate_user_origin_service, validate_machine_origin_service,
}
use internal_jwt_handling.Issuer.Derive.{
  external_token_claims, user_origin_service_claims, machine_origin_service_claims,
}
use internal_jwt_handling.Issuer.Derive.Lifetime.{
  Truncates, IsBounded, external_token_claims-IsBounded,
}
use internal_jwt_handling.Issuer.Chain.{
  Hop, reissue, start, then, Keeps, Chain-Keeps, Chain-origin_sub,
}
use internal_jwt_handling.Issuer.Model.{Issued}
use internal_jwt_handling.Issuer.SignedClaims.{new_signed_claims}
use internal_jwt_handling.Issuer.Issue.{sign_with, issue, issue_from_external}
use internal_jwt_handling.Issuer.Issue.Signing.{Signs, issue-Signs_iff, issue_from_external-Signs}
use internal_jwt_handling.Tests.Fixtures.{
  tenant_claims, outside, issuer, external_input, user_input, machine_input,
}

unfoldable pub derivations : Unit {0}
unfolding external_token_claims user_origin_service_claims machine_origin_service_claims
    validate_external_token validate_user_origin_service validate_machine_origin_service
    validate_binding new_signed_claims sign_with issue issue_from_external
derivations = tt

pub identifiers_filled : (w : ℕ) (s : String) → (outside.new_v7 w).0 ≡ ok s → s ≢ ""
identifiers_filled w s h = ground (arith, eq_iff "id" "")

pub truncates : Truncates outside.numeric_date
truncates = record {
  below = λ t. omega arith;
  near = λ t. omega arith;
  monotone = λ t u h. omega arith;
}

abbrev pub converted : Claims
converted = record {
  registered = record {
    issuer = "gw";
    subject = "user-1";
    audience = "orders" ∷ [];
    expires_at = some (100 * second);
    not_before = some (5 * second);
    issued_at = some (5 * second);
    id = "id";
  };
  token_use = "tenant_access";
  client_id = "app";
  txn = "id";
  scope = "a b";
  source_jti = "ext-1";
  source_expires_at = some (100 * second);
  origin_sub = "";
  tenant_public_id = "t1";
  event_public_id = "";
}

-- Seven seconds into the day "orders" calls "billing".
abbrev pub reissued : Claims
reissued = record {
  registered = record {
    issuer = "gw";
    subject = "orders";
    audience = "billing" ∷ [];
    expires_at = some (127 * second);
    not_before = some (7 * second);
    issued_at = some (7 * second);
    id = "id";
  };
  token_use = "service";
  client_id = "orders";
  txn = "txn-1";
  scope = "a b";
  source_jti = "jti-1";
  source_expires_at = none;
  origin_sub = "user-1";
  tenant_public_id = "t1";
  event_public_id = "";
}

abbrev pub batch : Claims
batch = record {
  registered = record {
    issuer = "gw";
    subject = "batch";
    audience = "billing" ∷ [];
    expires_at = some (127 * second);
    not_before = some (7 * second);
    issued_at = some (7 * second);
    id = "id";
  };
  token_use = "service";
  client_id = "batch";
  txn = "id";
  scope = "";
  source_jti = "";
  source_expires_at = none;
  origin_sub = "";
  tenant_public_id = "";
  event_public_id = "";
}

conversion : external_token_claims outside issuer external_input (5 * second) 5 ≡ (ok converted, 7)
unfolding derivations
conversion = refl

reissue_made :
    user_origin_service_claims outside issuer user_input (7 * second) 7 ≡ (ok reissued, 8)
unfolding derivations
reissue_made = refl

batch_made :
    machine_origin_service_claims outside issuer machine_input (7 * second) 7 ≡ (ok batch, 9)
unfolding derivations
batch_made = refl

hop : Hop outside issuer tenant_claims reissued
hop = reissue user_input (7 * second) 7 8 refl reissue_made

external_token_claims-IsBounded_example :
    IsBounded (5 * second) (add (5 * second) issuer.ttl) (100 * second) converted
external_token_claims-IsBounded_example =
    external_token_claims-IsBounded outside truncates issuer (omega arith) external_input
      (5 * second) 5 7 converted conversion

Chain-Keeps_example : Keeps tenant_claims reissued
Chain-Keeps_example = Chain-Keeps outside issuer (then start hop)

Chain-origin_sub_example :
    (reissued.token_use ≡ "service") × (reissued.origin_sub ≡ tenant_claims.subject)
Chain-origin_sub_example = Chain-origin_sub outside issuer {c = tenant_claims} refl start hop

-- The test issuer's tokens are the kid that they are signed under.
abbrev issued : Issued
issued = record { token = "k1"; claims = converted }

signed : issue outside issuer converted 7 ≡ (ok issued, 7)
unfolding derivations
signed = refl

answered : issue_from_external outside issuer external_input 5 ≡ (ok issued, 7)
unfolding derivations
answered = refl

issue-Signs_iff_example : Signs outside issuer converted 7 7 issued
issue-Signs_iff_example = (issue-Signs_iff outside issuer converted 7 7 issued).0 signed

issue_from_external-Signs_example :
    IsInternal "orders" converted × ((v : ℕ) × Signs outside issuer converted v 7 issued)
issue_from_external-Signs_example =
    issue_from_external-Signs outside issuer identifiers_filled external_input 5 7 issued answered
