-- ===== src/Jwks/Lookup.antt =====
-- jwks/cache.go: Key, Refresh and fetchLocked. The mutex makes each of them one step on the cache.
use internal_jwt_handling.Base.{String, Option, none, some, ◌==◌, ◌&&◌, not, if◌then◌else◌}
use internal_jwt_handling.Base.Int.{ltb_ℤ}
use internal_jwt_handling.Errors.{
  Error, sentinel, detail, wrap, root, RootError, unknown_key_id, jwks, failure_cooldown, foreign,
}
use internal_jwt_handling.Time.{Time, zero_time, is_zero, before, sub}
use internal_jwt_handling.Result.{Result, ok, err}
use internal_jwt_handling.Jwk.{Ecdsa}
use internal_jwt_handling.Jwks.Model.{lookup, Cache, Network}
use internal_jwt_handling.Jwks.Fetch.{Attempt, refreshed, failed, refresh}

-- What a call returns, the cache it leaves, and the outside.
pub record Outcome (W Public A : Type 0) : Type 0 where
  pub result : Result A
  pub cache : Cache Public
  pub outside : W

-- `%w` of a nil error, where the last error was never recorded.
abbrev pub last_error_of : Option Error → Error
last_error_of none = foreign "%!w(<nil>)"
last_error_of (some e) = e

abbrev pub unknown : String → Error
unknown key_id = detail (sentinel (root unknown_key_id)) key_id

module _ {W Public : Type 0} (ecdsa : Ecdsa Public) (net : Network W) where
  abbrev pub record_failure : Cache Public → Error → Time × W → Outcome W Public (Unit {0})
  record_failure c e (now, w) =
      if net.is_over w then record { result = err e; cache = c; outside = w } else record {
        result = err e;
        cache = record c { last_failure = now; last_error = some e };
        outside = w;
      }

  abbrev pub record_outcome : Cache Public → Attempt Public × W → Outcome W Public (Unit {0})
  record_outcome c (refreshed c', w) =
      let (now, w') = net.now w in
      record {
        result = ok tt;
        cache = record c' { last_failure = zero_time; last_error = none };
        outside = w';
      }
  record_outcome c (failed retryable e, w) = record_failure c e (net.now w)

  -- fetchLocked
  unfoldable pub fetch_locked : Cache Public → W → Outcome W Public (Unit {0})
  fetch_locked c w = record_outcome c (refresh ecdsa net c w)

  -- Refresh
  unfoldable pub refresh_keys : Cache Public → W → Outcome W Public (Unit {0})
  unfolding fetch_locked
  refresh_keys c w = fetch_locked c w

  -- The last lookup of Key, in the keys just fetched.
  abbrev pub found_in : String → Cache Public → Result Public
  found_in key_id c = elim (lookup key_id c.keys) [
    | none ↦ err (unknown key_id)
    | some key ↦ ok key
  ]

  abbrev pub after_fetch : String → Outcome W Public (Unit {0}) → Outcome W Public Public
  after_fetch key_id o = elim o.result [
    | err e ↦ record { result = err e; cache = o.cache; outside = o.outside }
    | ok _ ↦ record { result = found_in key_id o.cache; cache = o.cache; outside = o.outside }
  ]

  -- The part of Key that may fetch.
  unfoldable pub key_by_fetch : Cache Public → String → Time → W → Outcome W Public Public
  key_by_fetch c key_id now w =
      if not (is_zero c.last_failure) && ltb_ℤ (sub now c.last_failure) c.failure_cooldown
      then record {
        result = err (wrap (sentinel (jwks failure_cooldown)) (last_error_of c.last_error));
        cache = c;
        outside = w;
      }
      else after_fetch key_id (fetch_locked c w)

  -- Key, once the clock is read.
  unfoldable pub key_at : Cache Public → String → Time → W → Outcome W Public Public
  key_at c key_id now w =
      if before now c.expiry
      then elim (lookup key_id c.keys) [
        | some key ↦ record { result = ok key; cache = c; outside = w }
        | none ↦
            if ltb_ℤ (sub now c.last_refresh) c.refresh_cooldown
            then record { result = err (unknown key_id); cache = c; outside = w }
            else key_by_fetch c key_id now w
      ]
      else key_by_fetch c key_id now w

  -- Key
  unfoldable pub key : Cache Public → String → W → Outcome W Public Public
  key c key_id w =
      if key_id == ""
      then record {
        result = err (sentinel (root RootError.missing_key_id));
        cache = c;
        outside = w;
      }
      else (let (now, w') = net.now w in key_at c key_id now w')
