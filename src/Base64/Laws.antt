-- ===== src/Base64/Laws.antt =====
-- Decoding what was encoded gives the bytes back.
use Prim.Native.Char.{Char, code}
use Prim.Native.String.{String}
use internal_jwt_handling.Base.{
  ℕ, zero, suc, ◌+◌, ◌*◌, ◌/◌, ◌%◌, ◌<◌, ◌≡◌, refl, Option, none, some, List, [], ◌∷◌, nat_eq, ◌||◌,
  ◌&&◌, not, Bool, true, false, arith, All,
}
use internal_jwt_handling.Base64.{digit, value, encode, digits, bytes_of, decode}

abbrev is_value : Option ℕ → ℕ → Bool
is_value none n = false
is_value (some m) n = nat_eq m n

abbrev is_break : Char → Bool
is_break c = nat_eq (code c) 0x0a || nat_eq (code c) 0x0d

-- A test of every number under a bound.
passes : (ℕ → Bool) → ℕ → Bool
passes test zero = true
passes test (suc top) = passes test top && test top

passes_under :
    (test : ℕ → Bool) (bound i : ℕ) → i < bound → passes test bound ≡ true → test i ≡ true
unfolding passes
passes_under test zero i under passed = absurd (omega arith)
passes_under test (suc top) i under passed = ground (arith, passes_under test top i)

reads_back : ℕ → Bool
reads_back n = is_value (value (digit n)) n && not (is_break (digit n))

table : passes reads_back 64 ≡ true
unfolding passes reads_back digit value
table = refl

reads_back_lem :
    (n : ℕ) → reads_back n ≡ true → (value (digit n) ≡ some n) × (is_break (digit n) ≡ false)
unfolding reads_back
reads_back_lem n h = unfolded (value (digit n)) (is_break (digit n)) n h
  where
    unfolded :
        (v : Option ℕ) (b : Bool) (n : ℕ)
        → (is_value v n && not b) ≡ true
        → (v ≡ some n) × (b ≡ false)
    unfolded v b n h = ground arith

abbrev in_front : ℕ → Option (List ℕ) → Option (List ℕ)
in_front n none = none
in_front n (some vs) = some (n ∷ vs)

-- A digit that was written is read as its number.
digits-digit :
    (n : ℕ) (s : String) → n < 64 → digits (String.◌∷◌ (digit n) s) ≡ in_front n (digits s)
unfolding digits
digits-digit n s h =
    let (read, kept) = reads_back_lem n (passes_under reads_back 64 n h table) in rw (kept, read)

abbrev pub IsByte : ℕ → Type 0
IsByte b = b < 256

-- The digits of an encoding, as numbers.
values_of : List ℕ → List ℕ
values_of [] = []
values_of (a ∷ []) = a / 4 ∷ a % 4 * 16 ∷ []
values_of (a ∷ b ∷ []) = a / 4 ∷ (a % 4 * 16 + b / 16) ∷ b % 16 * 4 ∷ []
values_of (a ∷ b ∷ c ∷ rest) =
    a / 4 ∷ (a % 4 * 16 + b / 16) ∷ (b % 16 * 4 + c / 64) ∷ c % 64 ∷ values_of rest

digits-empty : digits "" ≡ some []
unfolding digits
digits-empty = refl

digits-encode : (bs : List ℕ) → All IsByte bs → digits (encode bs) ≡ some (values_of bs)
unfolding encode values_of
digits-encode [] h = unfold digits in refl
digits-encode (a ∷ []) h =
    rw (
      digits-digit (a / 4) _ (omega arith),
      digits-digit (a % 4 * 16) _ (omega arith),
      digits-empty,
    )
digits-encode (a ∷ b ∷ []) h = rw (
  digits-digit (a / 4) _ (omega arith),
  digits-digit (a % 4 * 16 + b / 16) _ (omega arith),
  digits-digit (b % 16 * 4) _ (omega arith),
  digits-empty,
)
digits-encode (a ∷ b ∷ c ∷ rest) (p, (q, (r, h))) = rw (
  digits-digit (a / 4) _ (omega arith),
  digits-digit (a % 4 * 16 + b / 16) _ (omega arith),
  digits-digit (b % 16 * 4 + c / 64) _ (omega arith),
  digits-digit (c % 64) _ (omega arith),
  digits-encode rest h,
)

bytes_of-values_of : (bs : List ℕ) → All IsByte bs → bytes_of (values_of bs) ≡ some bs
unfolding bytes_of values_of
bytes_of-values_of [] h = refl
bytes_of-values_of (a ∷ []) h = ground arith
bytes_of-values_of (a ∷ b ∷ []) h = ground arith
bytes_of-values_of (a ∷ b ∷ c ∷ rest) (p, (q, (r, h))) =
    rw (bytes_of-values_of rest h) (ground arith)

pub decode-encode : (bs : List ℕ) → All IsByte bs → decode (encode bs) ≡ some bs
unfolding decode
decode-encode bs h = rw (decode, digits-encode bs h) (bytes_of-values_of bs h)
