-- ===== src/Jwks/Resting.antt =====
-- The rest that Key of jwks/cache.go takes after a fetch that failed.
use internal_jwt_handling.Base.{
  String, none, some, ◌≡◌, ◌≢◌, ◌⊎◌, ◌==◌, ◌≤◌, ◌∙◌, true, false, arith, eq_iff, ap, refl,
}
use internal_jwt_handling.Base.Int.{ltb_ℤ}
use internal_jwt_handling.Errors.{Error, sentinel, wrap, jwks, failure_cooldown}
use internal_jwt_handling.Time.{Time, sub, zero_time}
use internal_jwt_handling.Result.{err}
use internal_jwt_handling.Jwk.{Ecdsa}
use internal_jwt_handling.Jwks.Model.{lookup, Cache, Network}
use internal_jwt_handling.Jwks.Fetch.{Attempt, refreshed, failed, refresh}
use internal_jwt_handling.Jwks.Lookup.{
  record_outcome, fetch_locked, refresh_keys, key_by_fetch, key_at, key,
}

module _ {W Public : Type 0} (ecdsa : Ecdsa Public) (net : Network W) where
  -- A Refresh that failed at a time, while its caller's context had not ended.
  pub record Fails (c : Cache Public) (w : W) (t : Time) (e : Error) : Type 0 where
    pub failed : (refresh_keys ecdsa net c w).result ≡ err e
    pub time : (net.now (refresh ecdsa net c w).1).0 ≡ t
    pub lives : net.is_over (net.now (refresh ecdsa net c w).1).1 ≡ false
    pub counted : t ≢ zero_time

  -- A kid that Key would have to ask for, at a time in the cooldown after a failure.
  pub record Rests (c : Cache Public) (kid : String) (now t : Time) : Type 0 where
    pub named : kid ≢ ""
    pub wanting :
        (c.expiry ≤ now)
        ⊎ (lookup kid c.keys ≡ none) × (ltb_ℤ (sub now c.last_refresh) c.refresh_cooldown ≡ false)
    pub recent : ltb_ℤ (sub now t) c.failure_cooldown ≡ true

  record_outcome-Fails :
      (c : Cache Public) (p : Attempt Public × W) (e : Error)
      → (record_outcome ecdsa net c p).result ≡ err e
      → net.is_over (net.now p.1).1 ≡ false
      → (record_outcome ecdsa net c p).cache
        ≡ record c { last_failure = (net.now p.1).0; last_error = some e }
  record_outcome-Fails c (refreshed d, v) e h lives = cc
  record_outcome-Fails c (failed retryable x, v) e h lives = ground arith

  refresh_keys-Fails :
      (c : Cache Public) (w : W) (t : Time) (e : Error)
      → Fails c w t e
      → (refresh_keys ecdsa net c w).cache ≡ record c { last_failure = t; last_error = some e }
  unfolding refresh_keys fetch_locked
  refresh_keys-Fails c w t e f =
      record_outcome-Fails c (refresh ecdsa net c w) e f.failed f.lives
      ∙ ap (λ s. record c { last_failure = s; last_error = some e }) f.time

  key_at-Rests :
      (c : Cache Public) (kid : String) (now t : Time) (w : W) (e : Error)
      → c.last_failure ≡ t
      → c.last_error ≡ some e
      → t ≢ zero_time
      → Rests c kid now t
      → key_at ecdsa net c kid now w ≡ record {
        result = err (wrap (sentinel (jwks failure_cooldown)) e);
        cache = c;
        outside = w;
      }
  unfolding key_at key_by_fetch
  key_at-Rests c kid now t w e same noted counted r =
      ground (arith, same, noted, r.wanting, r.recent)

  -- After a Refresh that failed while its caller's context had not ended, a Key that comes within the
  -- failure cooldown and would have to ask does not: it answers with the failure's own error under
  -- ErrFailureCooldown, leaves the cache as the failure left it, and does nothing outside but read
  -- the clock; if the failure's time is not Go's zero time.
  pub key-Rests :
      (c : Cache Public) (kid : String) (w v : W) (t : Time) (e : Error)
      → Fails c w t e
      → Rests c kid (net.now v).0 t
      → key ecdsa net (refresh_keys ecdsa net c w).cache kid v ≡ record {
        result = err (wrap (sentinel (jwks failure_cooldown)) e);
        cache = record c { last_failure = t; last_error = some e };
        outside = (net.now v).1;
      }
  unfolding key
  key-Rests c kid w v t e f r =
      let d : Cache Public = record c { last_failure = t; last_error = some e } in
      let other : (kid == "") ≡ false = ground (arith, eq_iff kid "", r.named) in
      let rests : Rests d kid (net.now v).0 t = record {
        named = r.named;
        wanting = r.wanting;
        recent = r.recent;
      } in
      rw (refresh_keys-Fails c w t e f, other)
        (key_at-Rests d kid (net.now v).0 t (net.now v).1 e refl refl f.counted rests)
