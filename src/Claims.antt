-- ===== src/Claims.antt =====
-- claims.go: the claim set of an internal JWT and the binding that a token_use requires.
-- Fields keep the source's names; `*jwt.NumericDate` is an `Option Time`, `nil` being `none`.
pub mod Binding
use internal_jwt_handling.Base.{
  String, List, [], Option, none, ◌==◌, ◌&&◌, ◌||◌, not, if◌then◌else◌,
}
use internal_jwt_handling.Time.{Time}
use internal_jwt_handling.Errors.{
  Error, sentinel, detail, Sentinel, root, RootError, unsupported_token_use,
  missing_tenant_public_id, missing_event_public_id, forbidden_event_public_id,
  registration_binding, service_event_without_tenant,
}
use internal_jwt_handling.Result.{Result, ok, err, ◌>>=◌, ◌>>◌, reject, require}

abbrev pub token_use_tenant_access : String
token_use_tenant_access = "tenant_access"

abbrev pub token_use_event_access : String
token_use_event_access = "event_access"

abbrev pub token_use_service : String
token_use_service = "service"

abbrev pub token_use_registration : String
token_use_registration = "registration"

-- jwt.RegisteredClaims, whose fields the source reads and writes.
pub record RegisteredClaims : Type 0 where
  pub issuer : String
  pub subject : String
  pub audience : List String
  pub expires_at : Option Time
  pub not_before : Option Time
  pub issued_at : Option Time
  pub id : String

pub record Claims : Type 0 where
  pub registered : RegisteredClaims
  pub open registered use *
  pub token_use : String
  pub client_id : String
  pub txn : String
  pub scope : String
  pub source_jti : String
  pub source_expires_at : Option Time
  pub origin_sub : String
  pub tenant_public_id : String
  pub event_public_id : String

-- `Claims{}`, the zero value.
abbrev pub no_claims : Claims
no_claims = record {
  registered = record {
    issuer = "";
    subject = "";
    audience = [];
    expires_at = none;
    not_before = none;
    issued_at = none;
    id = "";
  };
  token_use = "";
  client_id = "";
  txn = "";
  scope = "";
  source_jti = "";
  source_expires_at = none;
  origin_sub = "";
  tenant_public_id = "";
  event_public_id = "";
}

-- The `switch` of ValidateBinding; the cases are tried in the source's order.
unfoldable pub validate_binding : String → String → String → Result (Unit {0})
validate_binding token_use tenant event =
    if token_use == token_use_tenant_access
    then (do
      require tenant (detail (sentinel (root missing_tenant_public_id)) token_use)
      reject (not (event == "")) (detail (sentinel (root forbidden_event_public_id)) token_use))
    else if token_use == token_use_event_access
    then (do
      require tenant (detail (sentinel (root missing_tenant_public_id)) token_use)
      require event (detail (sentinel (root missing_event_public_id)) token_use))
    else if token_use == token_use_registration
    then reject (not (tenant == "") || not (event == "")) (sentinel (root registration_binding))
    else if token_use == token_use_service
    then reject (not (event == "") && tenant == "") (sentinel (root service_event_without_tenant))
    else err (detail (sentinel (root unsupported_token_use)) token_use)
