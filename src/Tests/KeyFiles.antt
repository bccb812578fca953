-- ===== src/Tests/KeyFiles.antt =====
-- The key provider at concrete files: one private and one public key.
use internal_jwt_handling.Base.{
  ℕ, ◌*◌, nat_eq, length, List, [], ◌∷◌, some, ◌≡◌, refl, Bool, false, if◌then◌else◌, ◌==◌, String,
}
use internal_jwt_handling.Base.Int.{pos}
use internal_jwt_handling.Errors.{foreign}
use internal_jwt_handling.Time.{second, minute}
use internal_jwt_handling.Result.{Result, ok, err}
use internal_jwt_handling.Jwk.{Jwks}
use internal_jwt_handling.Issuer.Publish.{publish_keys}
use internal_jwt_handling.Issuer.KeyFiles.{
  KeyFile, FileKeyProviderConfig, FileKeyProvider, Disk, Block, read_pem_file, parse_private_key,
  parse_public_key, read_private_key_file, read_public_key_file, load_published, load,
  new_file_key_provider, current_at, current,
}
use internal_jwt_handling.Issuer.KeyFiles.Loading.{IsLoaded, load-IsLoaded}
use internal_jwt_handling.Issuer.KeyFiles.Keeping.{
  IsServing, IsAnswer, new_file_key_provider-IsServing, current_at-IsAnswer,
}
use internal_jwt_handling.Issuer.Model.{KeySet}
use internal_jwt_handling.Issuer.KeyFiles.Reachable.{Reachable, asked, Reachable-current}
use internal_jwt_handling.Issuer.KeyFiles.Publishing.{publish_keys-succeeds}
use internal_jwt_handling.Tests.Publishing.{ecdsa, standard, public_of, set, encoded}

abbrev contents : String → Result (List ℕ)
contents path =
    if path == "k1.pem"
    then ok (1 ∷ [])
    else if path == "k2.pem"
    then ok (2 ∷ 2 ∷ [])
    else err (foreign "no such file")

-- A file of one byte is a private key, any other a public one.
abbrev block_of : List ℕ → Block
block_of bytes = record {
  block_type = (if nat_eq (length bytes) 1 then "EC PRIVATE KEY" else "PUBLIC KEY");
  bytes = bytes;
}

abbrev disk : Disk ℕ ℕ Bool
disk = record {
  now = λ w. (w * second, w);
  read_file = λ path w. (contents path, w);
  decode_pem = λ bytes. some (block_of bytes);
  parse_ec_private_key = λ bytes. ok 1;
  parse_pkcs8_private_key = λ bytes. err (foreign "not asked");
  parse_pkix_public_key = λ bytes. ok (some false);
  public_of = public_of;
}

abbrev signing : KeyFile
signing = record { path = "k1.pem"; key_id = "k1" }

abbrev others : List KeyFile
others = record { path = "k2.pem"; key_id = "k2" } ∷ []

abbrev config : FileKeyProviderConfig
config = record { signing = signing; published = others; refresh_interval = pos 0 }

abbrev provider : FileKeyProvider ℕ Bool
provider = record {
  signing = signing;
  published = others;
  refresh_interval = pos minute;
  keys = set;
  loaded_at = 5 * second;
}

files : Unit {0}
unfolding read_pem_file parse_private_key parse_public_key read_private_key_file
    read_public_key_file load_published load new_file_key_provider
files = tt

read : load ecdsa disk signing others 5 ≡ (ok set, 5)
unfolding files
read = refl

built : new_file_key_provider ecdsa disk config 5 ≡ (ok provider, 5)
unfolding files
built = refl

loaded : IsLoaded ecdsa disk signing others set
loaded = load-IsLoaded ecdsa disk signing others 5 5 set read

load-IsLoaded_example : IsLoaded ecdsa disk signing others set
load-IsLoaded_example = load-IsLoaded ecdsa disk signing others 5 5 set read

serving : IsServing ecdsa disk provider
serving = new_file_key_provider-IsServing ecdsa disk config 5 5 provider built

current_at-IsAnswer_example :
    IsAnswer ecdsa disk provider (90 * second) 90 (current_at ecdsa disk provider (90 * second) 90)
current_at-IsAnswer_example = current_at-IsAnswer ecdsa disk provider (90 * second) 90 serving

publish_keys-succeeds_example :
    (document : Jwks) × (publish_keys ecdsa disk.public_of set ≡ ok document)
publish_keys-succeeds_example =
    publish_keys-succeeds ecdsa disk standard (λ key on. (encoded key, refl)) signing others set
      loaded

Reachable-current_example :
    (later : KeySet ℕ Bool) × ((current ecdsa disk
        (current ecdsa disk provider 90).provider
        99).result
      ≡ ok later)
    × ((document : Jwks) × (publish_keys ecdsa disk.public_of later ≡ ok document))
Reachable-current_example =
    Reachable-current ecdsa disk standard (λ key on. (encoded key, refl)) 99
      (asked 90 (Reachable.built config 5 5 built))
