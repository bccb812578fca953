-- ===== src/Wire/Dates.antt =====
-- The dates of a claim set, and what is left of them once they are written: a NumericDate of
-- golang-jwt is cut when it is made and when it is written.
use internal_jwt_handling.Base.{Option, none, some, ◌≡◌, ◌≢◌, ◌⊎◌, refl, inl, inr}
use internal_jwt_handling.Time.{Time}
use internal_jwt_handling.Claims.{Claims, RegisteredClaims}

abbrev pub cut_date : (Time → Time) → Option Time → Option Time
cut_date cut none = none
cut_date cut (some t) = some (cut t)

-- The claims with their dates cut.
abbrev pub cut_registered : (Time → Time) → RegisteredClaims → RegisteredClaims
cut_registered cut r = record r {
  expires_at = cut_date cut r.expires_at;
  not_before = cut_date cut r.not_before;
  issued_at = cut_date cut r.issued_at;
}

abbrev pub cut_claims : (Time → Time) → Claims → Claims
cut_claims cut c = record c {
  registered = cut_registered cut c.registered;
  source_expires_at = cut_date cut c.source_expires_at;
}

-- No date, or one that was cut when it was made.
abbrev pub IsCut : (Time → Time) → Option Time → Type 0
IsCut cut d = (d ≡ none) ⊎ ((t : Time) × (d ≡ some (cut t)))

-- A claim set whose dates were cut when they were made.
pub record IsDated (cut : Time → Time) (c : Claims) : Type 0 where
  pub expires_at : IsCut cut c.expires_at
  pub not_before : IsCut cut c.not_before
  pub issued_at : IsCut cut c.issued_at
  pub source_expires_at : IsCut cut c.source_expires_at

pub cut_date-there : (cut : Time → Time) (d : Option Time) → d ≢ none → cut_date cut d ≢ none
cut_date-there cut none h e = h refl
cut_date-there cut (some t) h e = cc

module _ (cut : Time → Time) (settled : (t : Time) → cut (cut t) ≡ cut t) where
  cut_date-IsCut : (d : Option Time) → IsCut cut d → cut_date cut d ≡ d
  cut_date-IsCut d (inl e) = rw e refl
  cut_date-IsCut d (inr (t, e)) = rw (e, settled t) refl

  -- Writing such a claim set cuts nothing.
  pub cut_claims-IsDated : (c : Claims) → IsDated cut c → cut_claims cut c ≡ c
  cut_claims-IsDated c h =
      rw
        (
          cut_date-IsCut c.expires_at h.expires_at,
          cut_date-IsCut c.not_before h.not_before,
          cut_date-IsCut c.issued_at h.issued_at,
          cut_date-IsCut c.source_expires_at h.source_expires_at,
        )
        refl
