-- ===== src/Base64.antt =====
-- base64.RawURLEncoding of Go's encoding/base64: the URL alphabet, no padding, and a decoder that
-- skips line breaks and does not look at the bits left over in the last digit.
pub mod Laws
use Prim.Native.Char.{Char, code}
use Prim.Native.String
use Prim.Native.String.{String}
use internal_jwt_handling.Base.{
  ℕ, zero, suc, ◌+◌, ◌*◌, ◌/◌, ◌%◌, Option, none, some, List, [], ◌∷◌, nat_eq, ◌||◌, if◌then◌else◌,
}

abbrev alphabet : String
alphabet = "ABCDEFGHIJKLMNOPQRSTUVWXYZabcdefghijklmnopqrstuvwxyz0123456789-_"

abbrev char_at : String → ℕ → Char
char_at String.[] n = "A"
char_at (String.◌∷◌ c s) zero = c
char_at (String.◌∷◌ c s) (suc n) = char_at s n

abbrev index_from : ℕ → String → ℕ → Option ℕ
index_from n String.[] c = none
index_from n (String.◌∷◌ d s) c =
    let later = index_from (suc n) s c in if nat_eq (code d) c then some n else later

-- The digit of a number below 64, and back.
unfoldable pub digit : ℕ → Char
digit n = char_at alphabet n

unfoldable pub value : Char → Option ℕ
value c = index_from 0 alphabet (code c)

-- EncodeToString, of a list of bytes
unfoldable pub encode : List ℕ → String
encode [] = ""
encode (a ∷ []) = String.◌∷◌ (digit (a / 4)) (String.◌∷◌ (digit (a % 4 * 16)) "")
encode (a ∷ b ∷ []) =
    String.◌∷◌ (digit (a / 4))
      (String.◌∷◌ (digit (a % 4 * 16 + b / 16)) (String.◌∷◌ (digit (b % 16 * 4)) ""))
encode (a ∷ b ∷ c ∷ rest) = String.◌∷◌ (digit (a / 4)) (
    String.◌∷◌ (digit (a % 4 * 16 + b / 16))
      (String.◌∷◌ (digit (b % 16 * 4 + c / 64)) (String.◌∷◌ (digit (c % 64)) (encode rest))))

-- The digits of a text, less its line breaks; `none` at any other character.
unfoldable pub digits : String → Option (List ℕ)
digits String.[] = some []
digits (String.◌∷◌ c s) =
    let later = digits s in
    if nat_eq (code c) 0x0a || nat_eq (code c) 0x0d then later else elim (value c) [
      | none ↦ none
      | some v ↦ elim later [ none ↦ none | some vs ↦ some (v ∷ vs) ]
    ]

abbrev prepend : ℕ → ℕ → ℕ → Option (List ℕ) → Option (List ℕ)
prepend a b c none = none
prepend a b c (some bytes) = some (a ∷ b ∷ c ∷ bytes)

-- One digit left over is an error.
unfoldable pub bytes_of : List ℕ → Option (List ℕ)
bytes_of [] = some []
bytes_of (p ∷ []) = none
bytes_of (p ∷ q ∷ []) = some ((p * 4 + q / 16) ∷ [])
bytes_of (p ∷ q ∷ r ∷ []) = some ((p * 4 + q / 16) ∷ (q % 16 * 16 + r / 4) ∷ [])
bytes_of (p ∷ q ∷ r ∷ t ∷ rest) =
    prepend (p * 4 + q / 16) (q % 16 * 16 + r / 4) (r % 4 * 64 + t) (bytes_of rest)

-- DecodeString
unfoldable pub decode : String → Option (List ℕ)
unfolding digits bytes_of
decode s = elim (digits s) [ none ↦ none | some ds ↦ bytes_of ds ]
