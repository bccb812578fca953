-- ===== src/Issuer/Publish.antt =====
-- Publishing the key set: jwks of issuer/signer.go and JWKS of issuer/issuer.go.
pub mod Readback
use internal_jwt_handling.Base.{String, List, [], ◌∷◌, some, contains}
use internal_jwt_handling.Errors.{
  Error, sentinel, detail, wrap, issuer, IssuerError, key_provider, describe_key,
}
use internal_jwt_handling.Result.{Result, ok, ◌>>=◌, ◌>>◌, reject, require_some, map_err}
use internal_jwt_handling.Io.{Io, continue, lift, map_error}
use internal_jwt_handling.Jwk.{Jwk, Jwks, Ecdsa, new_jwk}
use internal_jwt_handling.Issuer.Model.{KeySet, PublishedKey, KeyProvider, Issuer}

abbrev describe_error : String → Error → Error
describe_error kid e = wrap (detail (sentinel (issuer describe_key)) kid) e

-- `public_of` is the field PublicKey of an ecdsa.PrivateKey.
module _ {Private Public : Type 0} (ecdsa : Ecdsa Public) (public_of : Private → Public) where
  -- The loop of the method `jwks`, after the kids seen so far: the JWKs that it appends.
  unfoldable pub publish_from : List String → List (PublishedKey Public) → Result (List Jwk)
  publish_from seen [] = ok []
  publish_from seen (published ∷ rest) = do
    reject (contains seen published.key_id)
        (detail (sentinel (issuer IssuerError.duplicate_key_id)) published.key_id)
    key ← map_err (describe_error published.key_id) (new_jwk ecdsa published.key_id published.key)
    keys ← publish_from (published.key_id ∷ seen) rest
    ok (key ∷ keys)

  -- The method `jwks`, once the provider has answered.
  unfoldable pub publish_keys : KeySet Private Public → Result Jwks
  unfolding publish_from
  publish_keys keys = do
    private ← require_some keys.signing.key (sentinel (issuer IssuerError.missing_signing_key))
    signing ←
        map_err (describe_error keys.signing.key_id)
          (new_jwk ecdsa keys.signing.key_id (some (public_of private)))
    rest ← publish_from (signing.key_id ∷ []) keys.published
    ok (record { keys = signing ∷ rest })

  module _ {W : Type 0} where
    -- The method `jwks`
    unfoldable pub publish : KeyProvider W Private Public → Io W Jwks
    unfolding publish_keys
    publish provider w =
        continue (map_error (wrap (sentinel (issuer key_provider))) provider w)
          (λ keys. lift (publish_keys keys))

    -- JWKS
    unfoldable pub issuer_jwks : Issuer W Private Public → Io W Jwks
    unfolding publish
    issuer_jwks i w = publish i.keys w
