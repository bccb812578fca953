-- ===== src/Result.antt =====
-- Fallible code: a Go function that returns `(T, error)` or `error` returns a `Result`.
pub mod Inversion
use internal_jwt_handling.Base.{Bool, true, false, Option, none, some, String, ◌==◌, is_none}
use internal_jwt_handling.Errors.{Error}

pub data Result {ℓ} (A : Type ℓ) : Type ℓ where
  err : Error → Result A
  ok : A → Result A

-- `if err != nil { return …, err }`. These are `abbrev`, so that `ok value >>= next` computes.
infixl 5 ◌>>=◌ ◌>>◌
abbrev pub ◌>>=◌ {κ ℓ} :
    {From : Type κ} {To : Type ℓ} → Result From → (From → Result To) → Result To
err e >>= next = err e
ok value >>= next = next value

abbrev pub ◌>>◌ {ℓ} : {To : Type ℓ} → Result (Unit {0}) → Result To → Result To
check >> rest = check >>= λ passed. rest

-- `if test { return e }`
abbrev pub reject : Bool → Error → Result (Unit {0})
reject true e = err e
reject false e = ok tt

-- `if s == "" { return e }`
abbrev pub require : String → Error → Result (Unit {0})
require s e = reject (s == "") e

-- `if p == nil { return e }`
abbrev pub require_present {ℓ} : {A : Type ℓ} → Option A → Error → Result (Unit {0})
require_present o e = reject (is_none o) e

-- `if p == nil { return e }`, with `p` dereferenced from then on.
abbrev pub require_some {ℓ} : {A : Type ℓ} → Option A → Error → Result A
require_some none e = err e
require_some (some a) e = ok a

-- The error of a call wrapped on its way out.
abbrev pub map_err {ℓ} : {A : Type ℓ} → (Error → Error) → Result A → Result A
map_err f (ok a) = ok a
map_err f (err e) = err (f e)
