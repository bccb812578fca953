-- ===== src/Issuer/Derive/Lifetime.antt =====
-- The times of the claim sets that the issuer derives.
use internal_jwt_handling.Base.{some, ◌≡◌, refl, sym, subst, ◌≤◌, ◌<◌, ◌+◌, arith}
use internal_jwt_handling.Base.Int.{pos, ◌<ℤ◌}
use internal_jwt_handling.Time.{Time, add, second}
use internal_jwt_handling.Result.{ok}
use internal_jwt_handling.Claims.{Claims}
use internal_jwt_handling.Issuer.Model.{Outside, Issuer, ExternalTokenInput}
use internal_jwt_handling.Issuer.Derive.{external_token_claims, capped_expiry}
use internal_jwt_handling.Issuer.Derive.Inversion.{external_token_claims-FromExternal}

-- What golang-jwt documents of NewNumericDate: it cuts a time down to the whole second.
pub record Truncates (numeric_date : Time → Time) : Type 0 where
  pub below : (t : Time) → numeric_date t ≤ t
  pub near : (t : Time) → t < numeric_date t + second
  pub monotone : (t u : Time) → t ≤ u → numeric_date t ≤ numeric_date u

-- The times of a conversion at a moment from a source that ends at another.
pub record IsBounded (now ttl_end source : Time) (c : Claims) : Type 0 where
  pub exp : Time
  pub nbf : Time
  pub src_exp : Time
  pub has_exp : c.expires_at ≡ some exp
  pub has_nbf : c.not_before ≡ some nbf
  pub has_iat : c.issued_at ≡ some nbf
  pub has_src_exp : c.source_expires_at ≡ some src_exp
  pub not_ahead : nbf ≤ now
  pub not_stale : now < nbf + second
  pub within_source : exp ≤ source
  pub within_src_exp : exp ≤ src_exp
  pub within_ttl : exp ≤ ttl_end
  pub in_order : nbf ≤ exp

capped_expiry_bounds :
    (i_ttl : _) (now source : Time)
    → pos 0 <ℤ i_ttl
    → now < source
    → (capped_expiry now i_ttl source ≤ source)
      × (capped_expiry now i_ttl source ≤ add now i_ttl)
      × (now < capped_expiry now i_ttl source)
capped_expiry_bounds ttl now source p q = ground arith

module _ {W Private : Type 0} (out : Outside W Private) (truncates : Truncates out.numeric_date)
    {Public : Type 0} (i : Issuer W Private Public) (positive : pos 0 <ℤ i.ttl) where
  -- A conversion ends no later than its external token and no later than the issuer's lifetime from
  -- now; it begins at most a second before now and never ahead of it.
  pub external_token_claims-IsBounded :
      (input : ExternalTokenInput) (now : Time) (w w' : W) (c : Claims)
      → external_token_claims out i input now w ≡ (ok c, w')
      → IsBounded now (add now i.ttl) input.source_expires_at c
  external_token_claims-IsBounded input now w w' c h =
      let f = external_token_claims-FromExternal out i input now w w' c h in
      let lives : now < input.source_expires_at = ground (arith, f.source_lives) in
      let exp = capped_expiry now i.ttl input.source_expires_at in
      let (in_source, in_ttl, ahead) =
        capped_expiry_bounds i.ttl now input.source_expires_at positive lives in
      let below = truncates.below exp in
      subst (IsBounded now (add now i.ttl) input.source_expires_at) (sym f.claims) (record {
        exp = out.numeric_date exp;
        nbf = out.numeric_date now;
        src_exp = out.numeric_date input.source_expires_at;
        has_exp = refl;
        has_nbf = refl;
        has_iat = refl;
        has_src_exp = refl;
        not_ahead = truncates.below now;
        not_stale = truncates.near now;
        within_source = omega (arith, below, in_source);
        within_src_exp = truncates.monotone exp input.source_expires_at in_source;
        within_ttl = omega (arith, below, in_ttl);
        in_order = truncates.monotone now exp (omega (arith, ahead));
      })
