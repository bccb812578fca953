-- ===== src/Jwk.antt =====
-- jwk.go: a P-256 public key as a JWK and back.
-- The key type and what crypto/ecdsa does with it are parameters, the record `Ecdsa`.
pub mod RoundTrip
use internal_jwt_handling.Base.{
  ℕ, String, List, ◌∷◌, ◌++◌, Option, none, some, ◌==◌, not, Bool, true, false, nat_eq, length,
  take, drop,
}
use internal_jwt_handling.Errors.{
  sentinel, detail, wrap, foreign, root, RootError, missing_key, unsupported_curve, encode_key,
  unexpected_key_length, unsupported_algorithm, unsupported_key_use, decode_coordinate,
  invalid_public_key,
}
use internal_jwt_handling.Result.{Result, ok, ◌>>=◌, ◌>>◌, reject, require, require_some, map_err}
use internal_jwt_handling.Base64.{encode, decode}

abbrev pub algorithm : String
algorithm = "ES256"

abbrev pub key_type : String
key_type = "EC"

abbrev pub curve : String
curve = "P-256"

abbrev pub key_use : String
key_use = "sig"

pub record Jwk : Type 0 where
  pub key_type : String
  pub curve : String
  pub key_id : String
  pub use' : String
  pub algorithm : String
  pub x : String
  pub y : String

pub record Jwks : Type 0 where
  pub keys : List Jwk

-- elliptic.Curve: P-256 itself, or another with its name.
pub data Curve : Type 0 where
  p256 : Curve
  other : String → Curve

-- What the source asks of crypto/ecdsa about a public key: its curve (nil where the key was never
-- initialised), its uncompressed encoding, and the key of an encoding on P-256.
pub record Ecdsa (Public : Type 0) : Type 0 where
  pub curve_of : Public → Option Curve
  pub bytes : Public → Result (List ℕ)
  pub parse_uncompressed : List ℕ → Result Public

abbrev pub uncompressed_p256_length : ℕ
uncompressed_p256_length = 65

abbrev pub p256_coordinate_length : ℕ
p256_coordinate_length = 32

-- CurveName
unfoldable pub curve_name : Option Curve → String
curve_name none = ""
curve_name (some p256) = "P-256"
curve_name (some (other name)) = name

abbrev pub is_p256 : Option Curve → Bool
is_p256 (some p256) = true
is_p256 (some (other _)) = false
is_p256 none = false

-- coordinate
unfoldable pub coordinate : String → String → Result (List ℕ)
coordinate name encoded = do
  decoded ←
      require_some (decode encoded)
        (wrap (detail (sentinel (root decode_coordinate)) name) (foreign "illegal base64 data"))
  reject (not (nat_eq (length decoded) p256_coordinate_length))
      (detail (sentinel (root unexpected_key_length)) name)
  ok decoded

module _ {Public : Type 0} (ecdsa : Ecdsa Public) where
  open ecdsa use {curve_of, bytes, parse_uncompressed}

  -- NewJWK
  unfoldable pub new_jwk : String → Option Public → Result Jwk
  unfolding curve_name
  new_jwk key_id key = do
    require key_id (sentinel (root RootError.missing_key_id))
    key ← require_some key (sentinel (root missing_key))
    reject (not (is_p256 (curve_of key)))
        (detail (sentinel (root unsupported_curve)) (curve_name (curve_of key)))
    encoded ← map_err (wrap (sentinel (root encode_key))) (bytes key)
    reject (not (nat_eq (length encoded) uncompressed_p256_length))
        (sentinel (root unexpected_key_length))
    ok (record {
      key_type = key_type;
      curve = curve;
      key_id = key_id;
      use' = key_use;
      algorithm = algorithm;
      x = encode (take 32 (drop 1 encoded));
      y = encode (drop 33 encoded);
    })

  -- PublicKey
  unfoldable pub public_key : Jwk → Result Public
  public_key key = do
    require key.key_id (sentinel (root RootError.missing_key_id))
    reject (not (key.key_type == key_type))
        (detail (sentinel (root RootError.unsupported_key_type)) key.key_type)
    reject (not (key.curve == curve)) (detail (sentinel (root unsupported_curve)) key.curve)
    reject (not (key.algorithm == algorithm))
        (detail (sentinel (root unsupported_algorithm)) key.algorithm)
    reject (not (key.use' == key_use)) (detail (sentinel (root unsupported_key_use)) key.use')
    x ← coordinate "x" key.x
    y ← coordinate "y" key.y
    map_err (wrap (sentinel (root invalid_public_key))) (parse_uncompressed (4 ∷ x ++ y))
