-- ===== src/Issuer/Model.antt =====
-- The types of the issuer package, and what it calls outside the repository.
use internal_jwt_handling.Base.{String, List, Option}
use internal_jwt_handling.Time.{Time, Duration}
use internal_jwt_handling.Io.{Io, Clock}
use internal_jwt_handling.Wire.{Payload}
use internal_jwt_handling.Claims.{Claims}

-- issuer/keys.go
pub record SigningKey (Private : Type 0) : Type 0 where
  pub key_id : String
  pub key : Option Private

pub record PublishedKey (Public : Type 0) : Type 0 where
  pub key_id : String
  pub key : Option Public

pub record KeySet (Private Public : Type 0) : Type 0 where
  pub signing : SigningKey Private
  pub published : List (PublishedKey Public)

-- The KeyProvider interface: its method Current.
abbrev pub KeyProvider : Type 0 → Type 0 → Type 0 → Type 0
KeyProvider W Private Public = Io W (KeySet Private Public)

-- google/uuid and golang-jwt, as far as the issuer calls them: a UUIDv7 in text form, the time that
-- a NumericDate keeps of a time (NewNumericDate cuts it to TimePrecision, and MarshalJSON does again),
-- and the compact form of a token signed by ES256 with a kid.
pub record Outside (W Private : Type 0) : Type 0 where
  pub new_v7 : Io W String
  pub numeric_date : Time → Time
  pub signed_string : String → Private → Payload → Io W String

-- The fields of Issuer (issuer/issuer.go) and of its signer (issuer/signer.go) that options may
-- adjust, and an issuer with its clock.
pub record Settings (W Private Public : Type 0) : Type 0 where
  pub issuer_id : String
  pub keys : KeyProvider W Private Public
  pub ttl : Duration
  pub now : Option (Clock W)

pub record Issuer (W Private Public : Type 0) : Type 0 where
  pub settings : Settings W Private Public
  pub open settings use *
  pub clock : Clock W

-- issuer/external.go
pub record ExternalTokenInput : Type 0 where
  pub audience : String
  pub token_use : String
  pub subject : String
  pub client_id : String
  pub scope : String
  pub source_jti : String
  pub source_expires_at : Time
  pub tenant_public_id : String
  pub event_public_id : String

-- issuer/service.go
pub record UserOriginServiceInput : Type 0 where
  pub audience : String
  pub caller_service : String
  pub context : Claims

pub record MachineOriginServiceInput : Type 0 where
  pub audience : String
  pub caller_service : String
  pub context : Option Claims

-- issuer/issuer.go
pub record Issued : Type 0 where
  pub token : String
  pub claims : Claims
