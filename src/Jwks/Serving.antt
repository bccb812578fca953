-- ===== src/Jwks/Serving.antt =====
-- Which keys Key of jwks/cache.go serves, when it asks the network, and what a failed fetch leaves.
use internal_jwt_handling.Base.{
  String, [], none, some, ◌≡◌, refl, ◌≢◌, ◌⊎◌, inl, inr, true, arith, Bool-cases, is_some,
}
use internal_jwt_handling.Errors.{Error}
use internal_jwt_handling.Time.{Time, add, zero_time}
use internal_jwt_handling.Result.{Result, ok, err}
use internal_jwt_handling.Result.Inversion.{result_cases}
use internal_jwt_handling.Jwk.{Ecdsa}
use internal_jwt_handling.Jwks.Model.{Cache, Network, ParsedUrl, Config, new, validate_url}
use internal_jwt_handling.Jwks.Fetch.{Attempt, refreshed, failed, refresh}
use internal_jwt_handling.Jwks.Refreshing.{IsRefresh, refresh_with-IsRefresh}
use internal_jwt_handling.Jwks.Lookup.{record_outcome, fetch_locked}

module _ {Public : Type 0} where
  -- What every cache keeps: it holds keys only until the TTL after its last refresh, and a recorded
  -- failure has its error.
  pub record IsCoherent (c : Cache Public) : Type 0 where
    pub ttl : (c.keys ≡ []) × (c.expiry ≡ zero_time) ⊎ (c.expiry ≡ add c.last_refresh c.cache_ttl)
    pub failure : c.last_failure ≢ zero_time → is_some c.last_error ≡ true

  -- A cache as New builds it is coherent.
  pub new-IsCoherent :
      (parse : String → Result ParsedUrl) (config : Config) (c : Cache Public)
      → new parse config ≡ ok c
      → IsCoherent c
  unfolding new
  new-IsCoherent parse config c h = elim (result_cases (validate_url parse config.url)) [
    | inr (e, bad) ↦ absurd (ground arith)
    | inl (u, good) ↦ record { ttl = inl (ground arith, ground arith); failure = ground arith }
  ]

module _ {W Public : Type 0} (ecdsa : Ecdsa Public) (net : Network W) where
  -- What a fetch leaves: after a success, the refreshed cache with no failure recorded; after a
  -- failure, the cache as it was, but for the failure that may be recorded.
  pub record Leaves (c : Cache Public) (w : W) (r : Result (Unit {0})) (d : Cache Public)
      : Type 0 where
    pub success :
        r ≡ ok tt
        → (x : Cache Public) × IsRefresh ecdsa net c w x
          × (d ≡ record x { last_failure = zero_time; last_error = none })
    pub failure :
        (e : Error)
        → r ≡ err e
        → (d ≡ c) ⊎ ((t : Time) × (d ≡ record c { last_failure = t; last_error = some e }))

  record_outcome-Leaves :
      (c : Cache Public) (w : W) (p : Attempt Public × W)
      → ((d : Cache Public) → p.0 ≡ refreshed d → IsRefresh ecdsa net c w d)
      → Leaves c w (record_outcome ecdsa net c p).result (record_outcome ecdsa net c p).cache
  record_outcome-Leaves c w (refreshed d, u) h = record {
    success = λ e. (d, h d refl, refl);
    failure = λ e r. cc;
  }
  record_outcome-Leaves c w (failed retryable e, u) h =
      elim (Bool-cases (net.is_over (net.now u).1)) [
        | inl over ↦ record {
          success = λ r. absurd (ground arith);
          failure = λ x r. inl (ground arith);
        }
        | inr lives ↦ record {
          success = λ r. absurd (ground arith);
          failure = λ x r. inr ((net.now u).0, ground arith);
        }
      ]

  -- A fetch that succeeds leaves a refreshed cache and no failure recorded; one that fails leaves the
  -- cache as it was, but for its error and time where the caller's context had not ended.
  pub fetch_locked-Leaves :
      (c : Cache Public) (w : W)
      → Leaves c w (fetch_locked ecdsa net c w).result (fetch_locked ecdsa net c w).cache
  unfolding fetch_locked refresh
  fetch_locked-Leaves c w =
      record_outcome-Leaves c w (refresh ecdsa net c w)
        (λ d. refresh_with-IsRefresh ecdsa net c.retry_backoff c d w)

  pub fetch_locked-IsCoherent :
      (c : Cache Public) (w : W) → IsCoherent c → IsCoherent (fetch_locked ecdsa net c w).cache
  fetch_locked-IsCoherent c w k =
      let l = fetch_locked-Leaves c w in
      elim (result_cases (fetch_locked ecdsa net c w).result) [
        | inl (u, done) ↦
            let (x, r, left) = l.success done in
            rw left (record { ttl = inr (ground (arith, r.fetched.fresh)); failure = ground arith })
        | inr (e, lost) ↦ elim (l.failure e lost) [
          | inl same ↦ rw same k
          | inr (t, noted) ↦ rw noted (record { ttl = k.ttl; failure = ground arith })
        ]
      ]
