-- ===== src/Tests/Publishing.antt =====
-- The key set, published and read back, at concrete keys.
use internal_jwt_handling.Base.{
  ℕ, zero, suc, List, [], ◌∷◌, ◌++◌, some, ◌≡◌, refl, subst, Bool, true, false, nat_eq, All, arith,
  String,
}
use internal_jwt_handling.Result.{Result, ok}
use internal_jwt_handling.Base64.{encode, digit}
use internal_jwt_handling.Base64.Laws.{IsByte}
use internal_jwt_handling.Jwk.{Jwk, Jwks, Ecdsa, p256, new_jwk, public_key}
use internal_jwt_handling.Jwk.RoundTrip.{IsStandard, IsUncompressed, public_key-new_jwk}
use internal_jwt_handling.Issuer.Model.{KeySet}
use internal_jwt_handling.Issuer.Publish.{publish_from, publish_keys}
use internal_jwt_handling.Issuer.Publish.Readback.{Publishes, publish_keys-parse_from}
use internal_jwt_handling.Jwks.Model.{KeyMap}
use internal_jwt_handling.Jwks.Fetch.{parse_from}

abbrev zeros : ℕ → List ℕ
zeros zero = []
zeros (suc n) = 0 ∷ zeros n

zeros-IsByte : (n : ℕ) → All IsByte (zeros n)
zeros-IsByte zero = tt
zeros-IsByte (suc n) = (omega arith, zeros-IsByte n)

-- There are two keys, told apart by the first byte of their X.
abbrev mark : Bool → ℕ
mark true = 1
mark false = 0

abbrev pub encoded : Bool → List ℕ
encoded key = 4 ∷ (mark key ∷ zeros 31) ++ zeros 32

abbrev key_of : List ℕ → Result Bool
key_of (form ∷ first ∷ rest) = ok (nat_eq first 1)
key_of (form ∷ []) = ok false
key_of [] = ok false

abbrev pub ecdsa : Ecdsa Bool
ecdsa = record {
  curve_of = λ key. some p256;
  bytes = λ key. ok (encoded key);
  parse_uncompressed = key_of;
}

key_of-encoded : (key : Bool) → key_of (encoded key) ≡ ok key
key_of-encoded true = refl
key_of-encoded false = refl

mark-IsByte : (key : Bool) → IsByte (mark key)
mark-IsByte true = omega arith
mark-IsByte false = omega arith

encoded-IsUncompressed : (key : Bool) → IsUncompressed (encoded key)
encoded-IsUncompressed key = record {
  x = mark key ∷ zeros 31;
  y = zeros 32;
  joined = refl;
  x_length = refl;
  y_length = refl;
  x_bytes = (mark-IsByte key, zeros-IsByte 31);
  y_bytes = zeros-IsByte 32;
}

pub standard : IsStandard ecdsa
standard = record {
  uncompressed =
      λ key bs on read. subst IsUncompressed (ok-injective read) (encoded-IsUncompressed key);
  parses =
      λ key bs on read. subst (λ b. key_of b ≡ ok key) (ok-injective read) (key_of-encoded key);
}
  where
    ok-injective : {a b : List ℕ} → ok a ≡ ok b → a ≡ b
    ok-injective h = cc h

abbrev pub blank : String
blank = "AAAAAAAAAAAAAAAAAAAAAAAAAAAAAAAAAAAAAAAAAAA"

abbrev pub jwk : String → String → Jwk
jwk kid x = record {
  key_type = "EC";
  curve = "P-256";
  key_id = kid;
  use' = "sig";
  algorithm = "ES256";
  x = x;
  y = blank;
}

abbrev pub marked : Jwk
marked = jwk "k1" "AQAAAAAAAAAAAAAAAAAAAAAAAAAAAAAAAAAAAAAAAAA"

-- A private key is the number of its public key's byte.
abbrev pub set : KeySet ℕ Bool
set = record {
  signing = record { key_id = "k1"; key = some 1 };
  published = record { key_id = "k2"; key = some false } ∷ [];
}

abbrev pub public_of : ℕ → Bool
public_of private = nat_eq private 1

abbrev pub document : Jwks
document = record { keys = marked ∷ jwk "k2" blank ∷ [] }

unfoldable pub publishing : Unit {0}
unfolding publish_keys publish_from new_jwk encode digit
publishing = tt

described : new_jwk ecdsa "k1" (some true) ≡ ok marked
unfolding publishing
described = refl

published : publish_keys ecdsa public_of set ≡ ok document
unfolding publishing
published = refl

public_key-new_jwk_example : (public_key ecdsa marked ≡ ok true) × (marked.key_id ≡ "k1")
public_key-new_jwk_example = public_key-new_jwk ecdsa standard "k1" true marked described

publish_keys-parse_from_example :
    (private : ℕ) × (map : KeyMap Bool) × (set.signing.key ≡ some private)
    × Publishes set.published map
    × (parse_from ecdsa [] document.keys ≡ ok ((set.signing.key_id, public_of private) ∷ map))
publish_keys-parse_from_example =
    publish_keys-parse_from ecdsa public_of standard set document published
