-- ===== src/Io/Inversion.antt =====
-- What a successful chain of calls says of each call.
use internal_jwt_handling.Base.{◌≡◌, refl, ◌⊎◌, inl, inr}
use internal_jwt_handling.Errors.{Error}
use internal_jwt_handling.Result.{Result, ok, err}
use internal_jwt_handling.Io.{Io, continue, ◌>>=◌}

continue-eq-ok :
    {W A B : Type 0} (p : Result A × W) (f : A → Io W B) {b : B} {w : W}
    → continue p f ≡ (ok b, w)
    → (a : A) × (w' : W) × (p ≡ (ok a, w')) × (f a w' ≡ (ok b, w))
continue-eq-ok (ok a, w') f h = (a, w', refl, h)
continue-eq-ok (err e, w') f h = cc

pub bind-eq-ok :
    {W A B : Type 0} (m : Io W A) (f : A → Io W B) {v w : W} {b : B}
    → (m >>= f) v ≡ (ok b, w)
    → (a : A) × (w' : W) × (m v ≡ (ok a, w')) × (f a w' ≡ (ok b, w))
bind-eq-ok m f {v} h = continue-eq-ok (m v) f h

-- The two ways in which a call outside ends.
pub outcome :
    {W A : Type 0} (p : Result A × W)
    → ((a : A) × (w : W) × (p ≡ (ok a, w))) ⊎ ((e : Error) × (w : W) × (p ≡ (err e, w)))
outcome (ok a, w) = inl (a, w, refl)
outcome (err e, w) = inr (e, w, refl)
