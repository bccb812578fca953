-- ===== src/Result/Inversion.antt =====
-- What a successful chain of guards says of each guard.
use internal_jwt_handling.Base.{
  ◌≡◌, refl, ◌≢◌, ◌↔◌, ◌⊎◌, inl, inr, Bool, false, Option, none, some, String, eq_iff, arith,
}
use internal_jwt_handling.Errors.{Error}
use internal_jwt_handling.Result.{
  Result, ok, err, ◌>>=◌, ◌>>◌, reject, require, require_some, map_err,
}

pub bind-eq-ok {ℓ κ} :
    {From : Type ℓ} {To : Type κ} (first : Result From) (next : From → Result To) {last : To}
    → (first >>= next) ≡ ok last
    → (value : From) × (first ≡ ok value) × (next value ≡ ok last)
bind-eq-ok (err e) next h = cc
bind-eq-ok (ok value) next h = (value, refl, h)

-- Two checks in a row pass when each does.
pub seq-eq-ok_iff {ℓ} :
    {B : Type ℓ} (m : Result (Unit {0})) (k : Result B) (b : B)
    → ((m >> k) ≡ ok b) ↔ ((m ≡ ok tt) × (k ≡ ok b))
seq-eq-ok_iff (ok tt) k b = (λ h. (refl, h), λ h. h.1)
seq-eq-ok_iff (err e) k b = (λ h. cc, λ h. cc (h.0))

pub reject-eq-ok_iff : (b : Bool) (e : Error) → (reject b e ≡ ok tt) ↔ (b ≡ false)
reject-eq-ok_iff b e = ground arith

pub require-eq-ok_iff : (s : String) (e : Error) → (require s e ≡ ok tt) ↔ (s ≢ "")
require-eq-ok_iff s e = ground (arith, eq_iff s "")

pub require_some-eq-ok {ℓ} :
    {A : Type ℓ} (o : Option A) (e : Error) {a : A} → require_some o e ≡ ok a → o ≡ some a
require_some-eq-ok none e h = cc
require_some-eq-ok (some x) e h = ground arith

pub map_err-eq-ok {ℓ} :
    {A : Type ℓ} (f : Error → Error) (m : Result A) {a : A} → map_err f m ≡ ok a → m ≡ ok a
map_err-eq-ok f (ok x) h = h
map_err-eq-ok f (err e) h = cc

pub result_cases {ℓ} :
    {A : Type ℓ} (r : Result A) → ((a : A) × (r ≡ ok a)) ⊎ ((e : Error) × (r ≡ err e))
result_cases (ok a) = inl (a, refl)
result_cases (err e) = inr (e, refl)
