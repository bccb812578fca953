-- ===== src/Jwtgen/Generator.antt =====
-- jwtgen/jwtgen.go: the configuration, the generator and its key.
use internal_jwt_handling.Base.{String, [], ◌∷◌, some, ◌==◌, not, ◌*◌, Option, if◌then◌else◌}
use internal_jwt_handling.Base.Int.{pos}
use internal_jwt_handling.Errors.{
  Error, sentinel, detail, wrap, root, unsupported_curve, jwtgen, JwtgenError, generate_key,
}
use internal_jwt_handling.Time.{Duration, minute}
use internal_jwt_handling.Result.{Result, ok, ◌>>=◌, ◌>>◌, reject, require_some}
use internal_jwt_handling.Io.{Io, continue, lift, map_error}
use internal_jwt_handling.Jwk.{Jwks, Ecdsa, curve_name, is_p256, new_jwk}
use internal_jwt_handling.Claims.{Claims}
use internal_jwt_handling.Issuer.Model.{Outside, KeySet, KeyProvider}
use internal_jwt_handling.Jwtgen.Unchecked.{new_unchecked_claims, unchecked_payload}

abbrev pub default_key_id : String
default_key_id = "test-key"

abbrev pub default_ttl : Duration
default_ttl = pos (2 * minute)

abbrev pub default_subject : String
default_subject = "test-subject"

abbrev pub default_client_id : String
default_client_id = "test-client"

abbrev pub default_caller : String
default_caller = "test-caller"

abbrev pub default_source_jti : String
default_source_jti = "test-source-jti"

pub record Config : Type 0 where
  pub issuer : String
  pub audience : String
  pub token_use : String
  pub tenant_public_id : String
  pub event_public_id : String
  pub scope : String
  pub origin_sub : String
  pub txn : String
  pub subject : String
  pub key_id : String
  pub ttl : Duration

pub record Output : Type 0 where
  pub token : String
  pub claims : Claims
  pub jwks : Jwks

-- A generator's key is never nil: NewGeneratorWithKey refuses that.
pub record Generator (Private : Type 0) : Type 0 where
  pub key_id : String
  pub key : Private

-- orDefault
unfoldable pub or_default : String → String → String
or_default value fallback = if value == "" then fallback else value

abbrev pub fault : JwtgenError → Error
fault e = sentinel (jwtgen e)

-- `public_of` is the field PublicKey of an ecdsa.PrivateKey.
module _ {Private Public : Type 0} (ecdsa : Ecdsa Public) (public_of : Private → Public) where
  -- NewGeneratorWithKey
  unfoldable pub new_generator_with_key : String → Option Private → Result (Generator Private)
  new_generator_with_key key_id key = do
    key ← require_some key (fault JwtgenError.missing_signing_key)
    reject (not (is_p256 (ecdsa.curve_of (public_of key))))
        (detail (sentinel (root unsupported_curve)) (curve_name (ecdsa.curve_of (public_of key))))
    ok (record { key_id = or_default key_id default_key_id; key = key })

  -- NewGenerator; `generate` is ecdsa.GenerateKey on P-256
  unfoldable pub new_generator : {W : Type 0} → Io W Private → String → Io W (Generator Private)
  unfolding new_generator_with_key
  new_generator generate key_id w =
      continue (map_error (wrap (fault generate_key)) generate w)
        (λ key. lift (new_generator_with_key key_id (some key)))

  -- The method JWKS
  unfoldable pub generator_jwks : Generator Private → Result Jwks
  generator_jwks g = do
    key ← new_jwk ecdsa g.key_id (some (public_of g.key))
    ok (record { keys = key ∷ [] })

module _ {W Private : Type 0} where
  -- Current of staticKeyProvider
  abbrev pub static_key_provider :
      {Public : Type 0} → KeySet Private Public → KeyProvider W Private Public
  static_key_provider keys w = (ok keys, w)

  -- keyProvider
  unfoldable pub key_provider : {Public : Type 0} → Generator Private → KeyProvider W Private Public
  key_provider g =
      static_key_provider
        (record { signing = record { key_id = g.key_id; key = some g.key }; published = [] })

  -- SignUnchecked
  unfoldable pub sign_unchecked : Outside W Private → Generator Private → Claims → Io W String
  sign_unchecked out g claims =
      map_error (λ e. detail e "sign internal JWT")
        (out.signed_string g.key_id g.key
          (unchecked_payload out.numeric_date (new_unchecked_claims claims)))
