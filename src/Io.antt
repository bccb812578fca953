-- ===== src/Io.antt =====
-- Code that calls out of the repository: it passes on the state of the outside, of any type `W`
-- (clocks, random identifiers, files, the network, the state behind an interface).
pub mod Inversion
use internal_jwt_handling.Errors.{Error}
use internal_jwt_handling.Result.{Result, ok, err, map_err}
use internal_jwt_handling.Time.{Time}

abbrev pub Io : Type 0 → Type 0 → Type 0
Io W A = W → Result A × W

abbrev pub continue : {W A B : Type 0} → Result A × W → (A → Io W B) → Result B × W
continue (ok a, w) f = f a w
continue (err e, w) f = (err e, w)

infixl 5 ◌>>=◌ ◌>>◌
abbrev pub ◌>>=◌ : {W A B : Type 0} → Io W A → (A → Io W B) → Io W B
◌>>=◌ m f w = continue (m w) f

abbrev pub ◌>>◌ : {W B : Type 0} → Io W (Unit {0}) → Io W B → Io W B
m >> k = m >>= λ _. k

-- A step that calls nothing outside.
abbrev pub lift : {W A : Type 0} → Result A → Io W A
lift r w = (r, w)

abbrev pub map_error : {W A : Type 0} → (Error → Error) → Io W A → Io W A
map_error f m w = let (r, w') = m w in (map_err f r, w')

-- `func() time.Time`
abbrev pub Clock : Type 0 → Type 0
Clock W = W → Time × W

abbrev pub read_clock : {W : Type 0} → Clock W → Io W Time
read_clock now w = let (t, w') = now w in (ok t, w')
