-- ===== src/Wire/Members.antt =====
-- Finding a member of an object that a list of fields was written to.
use internal_jwt_handling.Base.{
  String, List, [], ◌∷◌, ◌++◌, Option, none, Bool-cases, some, ◌≡◌, refl, ◌∙◌, ap, arith, eq_iff,
  All, contains, ◌==◌, if◌then◌else◌, inl, inr, true, false,
}
use mathlib.Core.List.{append_assoc}
use internal_jwt_handling.Time.{Time}
use internal_jwt_handling.Result.{ok}
use internal_jwt_handling.Wire.Dates.{cut_date}
use internal_jwt_handling.Wire.{
  Json, text, texts, date, Payload, Field, plain, omitempty, date_omitempty, audience_omitempty,
  members, encode, find, as_string, as_date,
}

abbrev pub name_of : Field → String
name_of (plain k s) = k
name_of (omitempty k s) = k
name_of (date_omitempty k d) = k
name_of (audience_omitempty k l) = k

-- The value that a field is written with, if it is written.
abbrev pub written : (Time → Time) → Field → Option Json
written cut (plain k s) = some (text s)
written cut (omitempty k s) = if s == "" then none else some (text s)
written cut (date_omitempty k none) = none
written cut (date_omitempty k (some t)) = some (date (cut t))
written cut (audience_omitempty k []) = none
written cut (audience_omitempty k (a ∷ [])) = some (text a)
written cut (audience_omitempty k (a ∷ b ∷ more)) = some (texts (a ∷ b ∷ more))

-- What a field makes of the member that was read last.
abbrev pub override : Option Json → Option Json → Option Json
override last none = last
override last (some v) = some v

abbrev pub after_field : (Time → Time) → String → Option Json → Field → Option Json
after_field cut name last f = if name_of f == name then override last (written cut f) else last

find-members :
    (cut : Time → Time) (name : String) (last : Option Json) (f : Field) (p : Payload)
    → find name last (members cut f ++ p) ≡ find name (after_field cut name last f) p
unfolding find
find-members cut name last (plain k s) p = refl
find-members cut name last (omitempty k s) p = ground (arith, eq_iff s "", eq_iff k name)
find-members cut name last (date_omitempty k none) p = ground (arith, eq_iff k name)
find-members cut name last (date_omitempty k (some t)) p = refl
find-members cut name last (audience_omitempty k []) p = ground (arith, eq_iff k name)
find-members cut name last (audience_omitempty k (a ∷ [])) p = refl
find-members cut name last (audience_omitempty k (a ∷ b ∷ more)) p = refl

abbrev pub after_fields : (Time → Time) → String → Option Json → List Field → Option Json
after_fields cut name last [] = last
after_fields cut name last (f ∷ fields) = after_fields cut name (after_field cut name last f) fields

pub find-encode :
    (cut : Time → Time) (name : String) (last : Option Json) (fields : List Field)
    → find name last (encode cut fields) ≡ after_fields cut name last fields
unfolding find encode
find-encode cut name last [] = refl
find-encode cut name last (f ∷ fields) =
    find-members cut name last f (encode cut fields)
    ∙ find-encode cut name (after_field cut name last f) fields

pub as_string-omitted :
    (cut : Time → Time) (k s : String)
    → as_string (override none (written cut (omitempty k s))) ≡ ok s
as_string-omitted cut k s = ground (arith, eq_iff s "")

pub as_date-omitted :
    (cut : Time → Time) (k : String) (d : Option Time)
    → as_date (override none (written cut (date_omitempty k d))) ≡ ok (cut_date cut d)
as_date-omitted cut k none = refl
as_date-omitted cut k (some t) = refl

-- An object that was written, with more members behind.
pub find-encode-append :
    (cut : Time → Time) (name : String) (last : Option Json) (fields : List Field) (p : Payload)
    → find name last (encode cut fields ++ p) ≡ find name (after_fields cut name last fields) p
unfolding encode
find-encode-append cut name last [] p = refl
find-encode-append cut name last (f ∷ fields) p =
    ap (find name last) (append_assoc (members cut f) (encode cut fields) p)
    ∙ find-members cut name last f (encode cut fields ++ p)
    ∙ find-encode-append cut name (after_field cut name last f) fields p

-- Members of other names do not count.
pub find-others :
    (name : String) (names : List String) (last : Option Json) (p : Payload)
    → contains names name ≡ true
    → All (λ (m : String × Json). contains names m.0 ≡ false) p
    → find name last p ≡ last
unfolding find
find-others name names last [] h free = refl
find-others name names last ((k, v) ∷ p) h (other, free) = elim (Bool-cases (k == name)) [
  | inl e ↦ absurd (ground (arith, eq_iff k name))
  | inr e ↦ rw e (find-others name names last p h free)
]
