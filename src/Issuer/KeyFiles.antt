-- ===== src/Issuer/KeyFiles.antt =====
-- issuer/keys.go: the key provider that reads PEM files.
-- The file system, encoding/pem and crypto/x509 are parameters, the record `Disk`. The warnings that
-- the source logs are left out. The mutex makes Current one step on the provider.
pub mod Loading
pub mod Keeping
pub mod Reachable
pub mod Publishing
use internal_jwt_handling.Base.{
  ℕ, String, List, [], ◌∷◌, Option, none, some, ◌==◌, not, contains, if◌then◌else◌, ◌*◌,
}
use internal_jwt_handling.Base.Int.{ltb_ℤ, leb_ℤ, pos}
use internal_jwt_handling.Errors.{
  Error, sentinel, detail, wrap, issuer, IssuerError, missing_signing_key_id,
  missing_published_key_id, missing_key_file_path, read_key_file, no_pem_block,
  unsupported_pem_block, parse_key, root, unsupported_curve,
}
use internal_jwt_handling.Time.{Time, Duration, minute, sub}
use internal_jwt_handling.Result.{Result, ok, err, map_err, require_some, reject, require}
use internal_jwt_handling.Io.{Io, Clock, ◌>>=◌, ◌>>◌, lift, map_error, read_clock}
use internal_jwt_handling.Jwk.{Ecdsa, curve_name, is_p256}
use internal_jwt_handling.Issuer.Model.{SigningKey, PublishedKey, KeySet}

abbrev pub pem_type_ec_private_key : String
pem_type_ec_private_key = "EC PRIVATE KEY"

abbrev pub pem_type_private_key : String
pem_type_private_key = "PRIVATE KEY"

abbrev pub pem_type_public_key : String
pem_type_public_key = "PUBLIC KEY"

abbrev pub default_refresh_interval : Duration
default_refresh_interval = pos minute

-- The interval that NewFileKeyProvider settles on.
abbrev pub interval_of : Duration → Duration
interval_of interval = if leb_ℤ interval (pos 0) then default_refresh_interval else interval

pub record KeyFile : Type 0 where
  pub path : String
  pub key_id : String

pub record FileKeyProviderConfig : Type 0 where
  pub signing : KeyFile
  pub published : List KeyFile
  pub refresh_interval : Duration

-- pem.Block, as far as the source reads it.
pub record Block : Type 0 where
  pub block_type : String
  pub bytes : List ℕ

-- os.ReadFile, pem.Decode, and the parsers of crypto/x509; a parser that may read a key of another
-- kind answers none for it. `public_of` is the field PublicKey of an ecdsa.PrivateKey.
pub record Disk (W Private Public : Type 0) : Type 0 where
  pub now : Clock W
  pub read_file : String → Io W (List ℕ)
  pub decode_pem : List ℕ → Option Block
  pub parse_ec_private_key : List ℕ → Result Private
  pub parse_pkcs8_private_key : List ℕ → Result (Option Private)
  pub parse_pkix_public_key : List ℕ → Result (Option Public)
  pub public_of : Private → Public

pub record FileKeyProvider (Private Public : Type 0) : Type 0 where
  pub signing : KeyFile
  pub published : List KeyFile
  pub refresh_interval : Duration
  pub keys : KeySet Private Public
  pub loaded_at : Time

-- What Current returns, the provider it leaves, and the outside.
pub record Answer (W Private Public : Type 0) : Type 0 where
  pub result : Result (KeySet Private Public)
  pub provider : FileKeyProvider Private Public
  pub outside : W

module _ {W Private Public : Type 0} (ecdsa : Ecdsa Public) (disk : Disk W Private Public) where
  abbrev parse_fault : Error → Error
  parse_fault e = wrap (sentinel (issuer parse_key)) e

  -- readPEMFile
  unfoldable pub read_pem_file : String → Io W Block
  read_pem_file path = do
    lift (require path (sentinel (issuer missing_key_file_path)))
    encoded ← map_error (wrap (detail (sentinel (issuer read_key_file)) path)) (disk.read_file path)
    lift (require_some (disk.decode_pem encoded) (sentinel (issuer no_pem_block)))

  abbrev of_kind : {A : Type 0} → Result (Option A) → Result A
  of_kind (err e) = err (parse_fault e)
  of_kind (ok none) = err (sentinel (issuer IssuerError.unsupported_key_type))
  of_kind (ok (some key)) = ok key

  -- parsePrivateKey
  unfoldable pub parse_private_key : Block → Result Private
  parse_private_key block =
      if block.block_type == pem_type_ec_private_key
      then map_err parse_fault (disk.parse_ec_private_key block.bytes)
      else if block.block_type == pem_type_private_key
      then of_kind (disk.parse_pkcs8_private_key block.bytes)
      else err (detail (sentinel (issuer unsupported_pem_block)) block.block_type)

  -- parsePublicKey
  unfoldable pub parse_public_key : Block → Result Public
  parse_public_key block =
      if block.block_type == pem_type_public_key
      then of_kind (disk.parse_pkix_public_key block.bytes)
      else elim (parse_private_key block) [
        | err e ↦ err (detail e pem_type_public_key)
        | ok private ↦ ok (disk.public_of private)
      ]

  abbrev require_p256 : Public → Result (Unit {0})
  require_p256 key =
      reject (not (is_p256 (ecdsa.curve_of key)))
        (detail (sentinel (root unsupported_curve)) (curve_name (ecdsa.curve_of key)))

  -- readPrivateKeyFile
  unfoldable pub read_private_key_file : String → Io W Private
  read_private_key_file path = do
    block ← read_pem_file path
    key ← lift (parse_private_key block)
    lift (require_p256 (disk.public_of key))
    lift (ok key)

  -- readPublicKeyFile
  unfoldable pub read_public_key_file : KeyFile → Io W Public
  read_public_key_file file = do
    block ← read_pem_file file.path
    key ← lift (parse_public_key block)
    lift (require_p256 key)
    lift (ok key)

  -- The loop of load, after the kids seen so far: the keys that it appends.
  unfoldable pub load_published : List String → List KeyFile → Io W (List (PublishedKey Public))
  load_published seen [] = lift (ok [])
  load_published seen (file ∷ files) = do
    lift (require file.key_id (sentinel (issuer missing_published_key_id)))
    lift (
        reject (contains seen file.key_id)
          (detail (sentinel (issuer IssuerError.duplicate_key_id)) file.key_id))
    key ← map_error (λ e. detail e file.key_id) (read_public_key_file file)
    rest ← load_published (file.key_id ∷ seen) files
    lift (ok (record { key_id = file.key_id; key = some key } ∷ rest))

  -- load
  unfoldable pub load : KeyFile → List KeyFile → Io W (KeySet Private Public)
  load signing published = do
    lift (require signing.key_id (sentinel (issuer missing_signing_key_id)))
    key ← map_error (λ e. detail e signing.key_id) (read_private_key_file signing.path)
    rest ← load_published (signing.key_id ∷ []) published
    lift (
        ok (record {
          signing = record { key_id = signing.key_id; key = some key };
          published = rest;
        }))

  -- NewFileKeyProvider
  unfoldable pub new_file_key_provider :
      FileKeyProviderConfig → Io W (FileKeyProvider Private Public)
  new_file_key_provider config = do
    keys ← load config.signing config.published
    loaded_at ← read_clock disk.now
    lift (
        ok (record {
          signing = config.signing;
          published = config.published;
          refresh_interval = interval_of config.refresh_interval;
          keys = keys;
          loaded_at = loaded_at;
        }))

  -- currentLocked
  abbrev pub current_locked : FileKeyProvider Private Public → KeySet Private Public
  current_locked p = record { signing = p.keys.signing; published = p.keys.published }

  abbrev pub keep :
      FileKeyProvider Private Public
      → Time
      → Result (KeySet Private Public) × W
      → Answer W Private Public
  keep p now (err e, w) = record {
    result = ok (current_locked p);
    provider = record p { loaded_at = now };
    outside = w;
  }
  keep p now (ok keys, w) = record {
    result = ok (current_locked (record p { keys = keys; loaded_at = now }));
    provider = record p { keys = keys; loaded_at = now };
    outside = w;
  }

  -- Current, once the clock is read.
  unfoldable pub current_at : FileKeyProvider Private Public → Time → W → Answer W Private Public
  current_at p now w =
      if ltb_ℤ (sub now p.loaded_at) p.refresh_interval
      then record { result = ok (current_locked p); provider = p; outside = w }
      else keep p now (load p.signing p.published w)

  -- Current
  unfoldable pub current : FileKeyProvider Private Public → W → Answer W Private Public
  current p w = let (now, w') = disk.now w in current_at p now w'
