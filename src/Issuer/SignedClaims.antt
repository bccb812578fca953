-- ===== src/Issuer/SignedClaims.antt =====
-- issuer/claims.go: the wire form of the claim set.
use internal_jwt_handling.Base.{String, List, [], ◌∷◌, Option}
use internal_jwt_handling.Errors.{sentinel, issuer, IssuerError}
use internal_jwt_handling.Time.{Time}
use internal_jwt_handling.Result.{Result, ok, err}
use internal_jwt_handling.Wire.{Payload, plain, omitempty, date_omitempty, encode}
use internal_jwt_handling.Claims.{Claims}

pub record SignedClaims : Type 0 where
  pub issuer : String
  pub subject : String
  pub audience : String
  pub expires_at : Option Time
  pub not_before : Option Time
  pub issued_at : Option Time
  pub id : String
  pub token_use : String
  pub client_id : String
  pub txn : String
  pub scope : String
  pub source_jti : String
  pub source_expires_at : Option Time
  pub origin_sub : String
  pub tenant_public_id : String
  pub event_public_id : String

-- The claims beside a claim set's one audience.
abbrev pub with_audience : Claims → String → SignedClaims
with_audience claims audience = record {
  issuer = claims.issuer;
  subject = claims.subject;
  audience = audience;
  expires_at = claims.expires_at;
  not_before = claims.not_before;
  issued_at = claims.issued_at;
  id = claims.id;
  token_use = claims.token_use;
  client_id = claims.client_id;
  txn = claims.txn;
  scope = claims.scope;
  source_jti = claims.source_jti;
  source_expires_at = claims.source_expires_at;
  origin_sub = claims.origin_sub;
  tenant_public_id = claims.tenant_public_id;
  event_public_id = claims.event_public_id;
}

abbrev pub with_audiences : Claims → List String → Result SignedClaims
with_audiences claims (audience ∷ []) = ok (with_audience claims audience)
with_audiences claims [] = err (sentinel (issuer IssuerError.audience_count))
with_audiences claims (_ ∷ _ ∷ _) = err (sentinel (issuer IssuerError.audience_count))

-- newSignedClaims
unfoldable pub new_signed_claims : Claims → Result SignedClaims
new_signed_claims claims = with_audiences claims claims.audience

-- The struct tags of signedClaims. `cut` is that of Wire.
unfoldable pub payload : (Time → Time) → SignedClaims → Payload
payload cut c = encode cut (
    omitempty "iss" c.issuer
    ∷ omitempty "sub" c.subject
    ∷ plain "aud" c.audience
    ∷ date_omitempty "exp" c.expires_at
    ∷ date_omitempty "nbf" c.not_before
    ∷ date_omitempty "iat" c.issued_at
    ∷ omitempty "jti" c.id
    ∷ plain "token_use" c.token_use
    ∷ plain "client_id" c.client_id
    ∷ plain "txn" c.txn
    ∷ omitempty "scope" c.scope
    ∷ omitempty "src_jti" c.source_jti
    ∷ date_omitempty "src_exp" c.source_expires_at
    ∷ omitempty "origin_sub" c.origin_sub
    ∷ omitempty "tenant_id" c.tenant_public_id
    ∷ omitempty "event_id" c.event_public_id
    ∷ [])
