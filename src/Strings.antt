-- ===== src/Strings.antt =====
-- The functions of Go's strings and unicode packages that the source calls.
-- A `String` here is a list of code points: a Go string that is not UTF-8 is left out.
pub mod Laws
use Prim.Native.Char.{Char, code}
use Prim.Native.String
use internal_jwt_handling.Base.{
  ℕ, ◌+◌, String, Bool, true, false, ◌&&◌, ◌||◌, ◌==◌, not, Option, none, some, List, [], ◌∷◌, leb,
  nat_eq, if◌then◌else◌,
}

-- unicode.IsSpace
abbrev pub is_space_code : ℕ → Bool
is_space_code c =
    leb 0x09 c && leb c 0x0d
    || nat_eq c 0x20
    || nat_eq c 0x85
    || nat_eq c 0xa0
    || nat_eq c 0x1680
    || leb 0x2000 c && leb c 0x200a
    || nat_eq c 0x2028
    || nat_eq c 0x2029
    || nat_eq c 0x202f
    || nat_eq c 0x205f
    || nat_eq c 0x3000

unfoldable pub is_space : Char → Bool
is_space c = is_space_code (code c)

-- strings.ContainsFunc(s, unicode.IsSpace)
unfoldable pub contains_space : String → Bool
unfolding is_space
contains_space String.[] = false
contains_space (String.◌∷◌ c s) = is_space c || contains_space s

-- strings.TrimSpace(s) == ""
unfoldable pub is_blank : String → Bool
unfolding is_space
is_blank String.[] = true
is_blank (String.◌∷◌ c s) = is_space c && is_blank s

abbrev pub lower : ℕ → ℕ
lower c = if leb b'A' c && leb c b'Z' then c + 32 else c

-- strings.EqualFold(s, t), where t is ASCII and holds neither "k" nor "s": those two letters alone
-- have a fold outside ASCII.
unfoldable pub equal_fold : String → String → Bool
equal_fold String.[] String.[] = true
equal_fold String.[] (String.◌∷◌ d t) = false
equal_fold (String.◌∷◌ c s) String.[] = false
equal_fold (String.◌∷◌ c s) (String.◌∷◌ d t) =
    nat_eq (lower (code c)) (lower (code d)) && equal_fold s t

abbrev pub before_cut : Char → Option (String × String) → Option (String × String)
before_cut c none = none
before_cut c (some (a, b)) = some (String.◌∷◌ c a, b)

-- strings.Cut(s, " "), `none` where the separator is not found
unfoldable pub cut_space : String → Option (String × String)
cut_space String.[] = none
cut_space (String.◌∷◌ c s) =
    if nat_eq (code c) 0x20 then some ("", s) else before_cut c (cut_space s)

abbrev pub push : String → Char → String
push s c = String.◌++◌ s (String.◌∷◌ c String.[])

-- The word read so far, if there is one, in front of the later words.
abbrev pub emit : String → List String → List String
emit String.[] words = words
emit (String.◌∷◌ c s) words = String.◌∷◌ c s ∷ words

unfoldable pub fields_from : String → String → List String
unfolding is_space
fields_from cur String.[] = emit cur []
fields_from cur (String.◌∷◌ c s) =
    let closed = emit cur (fields_from String.[] s) in
    let longer = fields_from (push cur c) s in if is_space c then closed else longer

-- strings.Fields
unfoldable pub fields : String → List String
unfolding fields_from
fields s = fields_from String.[] s

-- strings.Join(words, " ")
unfoldable pub join_space : List String → String
join_space [] = ""
join_space (w ∷ []) = w
join_space (w ∷ v ∷ ws) = String.◌++◌ w (String.◌∷◌ " " (join_space (v ∷ ws)))
