-- ===== src/Agreement/Times.antt =====
-- When a claim set of the issuer is current by the verifier's clock.
use internal_jwt_handling.Base.{Option, some, ◌≡◌, ◌≤◌, ◌+◌, arith}
use internal_jwt_handling.Base.Int.{pos, ◌≤ℤ◌}
use internal_jwt_handling.Time.{Time, Duration, add, second}
use internal_jwt_handling.Claims.{Claims}
use internal_jwt_handling.Issuer.Derive.{capped_expiry}
use internal_jwt_handling.Issuer.Derive.Lifetime.{Truncates}
use internal_jwt_handling.Verifier.Trust.{IsCurrent}

pub same_some : {A : Type 0} (o : Option A) (a b : A) → o ≡ some a → o ≡ some b → a ≡ b
same_some o a b e f = cc

-- The times of a claim set that was made at a moment, with an end.
pub record Spans (numeric_date : Time → Time) (now end : Time) (c : Claims) : Type 0 where
  pub expires_at : c.expires_at ≡ some (numeric_date end)
  pub not_before : c.not_before ≡ some (numeric_date now)
  pub issued_at : c.issued_at ≡ some (numeric_date now)

le-add : (t : Time) (d : Duration) → pos 0 ≤ℤ d → t ≤ add t d
le-add t d h = ground arith

-- A claim set is current from the moment it was made until a second before its end.
pub Spans-IsCurrent :
    (numeric_date : Time → Time) (now end t : Time) (leeway : Duration) (c : Claims)
    → Truncates numeric_date
    → pos 0 ≤ℤ leeway
    → Spans numeric_date now end c
    → now ≤ t
    → t + second ≤ end
    → IsCurrent leeway t c
Spans-IsCurrent numeric_date now end t leeway c truncates ahead s begun lives = record {
  not_expired = λ exp e. omega (
    arith,
    same_some c.expires_at _ exp s.expires_at e,
    truncates.near end,
    le-add exp leeway ahead,
  );
  begun = λ nbf e. omega (
    arith,
    same_some c.not_before _ nbf s.not_before e,
    truncates.below now,
    le-add t leeway ahead,
  );
  issued = λ iat e. omega (
    arith,
    same_some c.issued_at _ iat s.issued_at e,
    truncates.below now,
    le-add t leeway ahead,
  );
}

pub le-capped_expiry :
    (now : Time) (ttl : Duration) (source t : Time)
    → t ≤ source
    → t ≤ add now ttl
    → t ≤ capped_expiry now ttl source
le-capped_expiry now ttl source t p q = ground arith
