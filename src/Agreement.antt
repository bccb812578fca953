-- ===== src/Agreement.antt =====
-- The issuer against the verifier: what golang-jwt documents of a token that it signs and reads.
-- The issuer (issuer/) and the verifier (verifier/) may run in two processes, so each has a state of
-- the outside of its own. `read` is the reading of jwt.RegisteredClaims, `public_of` the public half
-- of a private key.
pub mod Times
pub mod Accepted
pub mod Issued
pub mod Served
pub mod Rotated
pub mod Rooted
pub mod Minted
pub mod Allowed
use internal_jwt_handling.Base.{String, Option, none, some, ◌==◌, if◌then◌else◌, ◌≡◌, ◌≢◌, In}
use internal_jwt_handling.Time.{Time}
use internal_jwt_handling.Result.{Result, ok}
use internal_jwt_handling.Io.{Io}
use internal_jwt_handling.Jwk.{algorithm}
use internal_jwt_handling.Wire.{Payload}
use internal_jwt_handling.Wire.Claims.{decode_claims}
use internal_jwt_handling.Claims.{Claims, RegisteredClaims}
use internal_jwt_handling.Issuer.Model.{Outside}
use internal_jwt_handling.Verifier.Build.{
  Header, HeaderValue, text, ParserOptions, Parser, token_type_jwt,
}
use internal_jwt_handling.Verifier.Trust.{IsCurrent}

-- The header of a token that is signed by ES256 under a kid.
abbrev pub header_of : String → Header
header_of kid name =
    if name == "typ"
    then some (text token_type_jwt)
    else if name == "kid"
    then some (text kid)
    else if name == "alg"
    then some (text algorithm)
    else none

-- A signed token is not empty. The parser reads it, where its options have its algorithm and
-- issuer, the key function finds the other half of the key that signed it under its header, and it
-- has an exp and is current by the parser's clock: the answer is the claims of its payload. A date
-- that is already cut to the second stays as it is when it is cut again.
pub record Agrees {W V Private Public : Type 0} (out : Outside W Private) (parse : Parser V Public)
    (read : Payload → Result RegisteredClaims) (public_of : Private → Public) : Type 0 where
  pub settled : (t : Time) → out.numeric_date (out.numeric_date t) ≡ out.numeric_date t
  pub filled :
      (kid : String) (private : Private) (p : Payload) (token : String) (w w' : W)
      → out.signed_string kid private p w ≡ (ok token, w')
      → token ≢ ""
  pub accepts :
      (kid : String) (private : Private) (p : Payload) (token : String) (w w' : W) (c : Claims)
      → out.signed_string kid private p w ≡ (ok token, w')
      → decode_claims read p ≡ ok c
      → (o : ParserOptions V) (find : Header → Io V Public) (v v' : V)
      → In algorithm o.valid_methods
      → c.issuer ≡ o.issuer
      → find (header_of kid) v ≡ (ok (public_of private), v')
      → c.expires_at ≢ none
      → IsCurrent o.leeway (o.time_func v').0 c
      → parse o token find v ≡ (ok c, (o.time_func v').1)
