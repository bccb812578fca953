-- ===== src/Wire.antt =====
-- The JSON object that a claim set is signed as: the struct tags of issuer/claims.go and
-- jwtgen/claims.go on the way out, and those of claims.go on the way in.
-- An object is the list of its members, which encoding/json writes in the order of the fields.
-- A date is the number of a NumericDate; `cut` is what MarshalJSON of golang-jwt's NumericDate does
-- first, which cuts the time to its TimePrecision. The values are those that these structs write, so
-- null, Booleans and nested objects are left out.
pub mod Claims
pub mod Dates
pub mod Members
pub mod RoundTrip
use internal_jwt_handling.Base.{
  String, List, [], ◌∷◌, ◌++◌, Option, none, some, ◌==◌, if◌then◌else◌,
}
use internal_jwt_handling.Time.{Time}
use internal_jwt_handling.Errors.{foreign}
use internal_jwt_handling.Result.{Result, ok, err}

pub data Json : Type 0 where
  text : String → Json
  texts : List String → Json
  date : Time → Json

abbrev pub Payload : Type 0
Payload = List (String × Json)

-- A field with its tag: its name, and whether the tag says omitempty, which leaves out the empty
-- text, the nil pointer and the empty list. A list of audiences is written as MarshalJSON of
-- uncheckedAudience in jwtgen/claims.go does it: one audience as a text, more as a list.
pub data Field : Type 0 where
  plain : String → String → Field
  omitempty : String → String → Field
  date_omitempty : String → Option Time → Field
  audience_omitempty : String → List String → Field

abbrev pub members : (Time → Time) → Field → Payload
members cut (plain name s) = (name, text s) ∷ []
members cut (omitempty name s) = if s == "" then [] else (name, text s) ∷ []
members cut (date_omitempty name none) = []
members cut (date_omitempty name (some t)) = (name, date (cut t)) ∷ []
members cut (audience_omitempty name []) = []
members cut (audience_omitempty name (a ∷ [])) = (name, text a) ∷ []
members cut (audience_omitempty name (a ∷ b ∷ more)) = (name, texts (a ∷ b ∷ more)) ∷ []

-- encoding/json on a struct of such fields.
unfoldable pub encode : (Time → Time) → List Field → Payload
encode cut [] = []
encode cut (field ∷ fields) = members cut field ++ encode cut fields

-- The member of a name, from one that was read before: encoding/json keeps the last.
unfoldable pub find : String → Option Json → Payload → Option Json
find name last [] = last
find name last ((k, v) ∷ rest) = find name (if k == name then some v else last) rest

-- Reading a string: a missing member leaves it empty.
abbrev pub as_string : Option Json → Result String
as_string none = ok ""
as_string (some (text s)) = ok s
as_string (some (texts _)) = err (foreign "cannot unmarshal array into a string")
as_string (some (date _)) = err (foreign "cannot unmarshal number into a string")

-- Reading a *NumericDate: a missing member leaves it nil.
abbrev pub as_date : Option Json → Result (Option Time)
as_date none = ok none
as_date (some (date t)) = ok (some t)
as_date (some (text _)) = err (foreign "could not parse numeric date")
as_date (some (texts _)) = err (foreign "could not parse numeric date")
