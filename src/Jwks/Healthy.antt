-- ===== src/Jwks/Healthy.antt =====
-- Key of jwks/cache.go where its endpoint answers with a document that fits.
use internal_jwt_handling.Base.{
  String, List, none, some, ◌==◌, ◌≡◌, refl, ◌≢◌, ◌⊎◌, [], ◌∷◌, ◌≤◌, ◌<◌, arith, eq_iff, false,
  length, ◌∙◌,
}
use internal_jwt_handling.Base.Int.{pos_part, ltb_ℤ}
use internal_jwt_handling.Time.{Time, Duration, add, sub, zero_time, max_duration}
use internal_jwt_handling.Result.{ok}
use internal_jwt_handling.Jwk.{Ecdsa}
use internal_jwt_handling.Jwks.Model.{
  KeyMap, lookup, Cache, Network, Response, Body, read_limited, read_limit,
}
use internal_jwt_handling.Jwks.Fetch.{refreshed, refresh_once, refresh_with, refresh, parse_keys}
use internal_jwt_handling.Jwks.Lookup.{fetch_locked, key_by_fetch, key_at, key}

-- A body that arrives whole and within a size is read whole.
read_limited-whole :
    (size : _) (body : Body)
    → body.fault ≡ none
    → length body.bytes ≤ pos_part size
    → pos_part size < max_duration
    → read_limited (read_limit size) body ≡ ok body.bytes
unfolding read_limited read_limit
read_limited-whole size body whole fits small = ground (arith, whole)

module _ {W Public : Type 0} (ecdsa : Ecdsa Public) (net : Network W) where
  -- An endpoint that answers a cache's next request with a document that its size limit admits, and
  -- that parseKeys reads into the keys.
  pub record IsHealthy (c : Cache Public) (w : W) (keys : KeyMap Public) : Type 0 where
    pub made : net.new_request c.url ≡ none
    pub response : Response
    pub received : W
    pub sent : net.send c.url c.fetch_timeout w ≡ (ok response, received)
    pub status : response.status_code ≡ 200
    pub whole : response.body.fault ≡ none
    pub fits : length response.body.bytes ≤ pos_part c.max_document_size
    pub limited : pos_part c.max_document_size < max_duration
    pub read : parse_keys ecdsa net response.body.bytes ≡ ok keys

  -- A cache that has just been refreshed.
  abbrev pub filled_at : Cache Public → KeyMap Public → Time → Cache Public
  filled_at c keys t = record c {
    keys = keys;
    expiry = add t c.cache_ttl;
    last_refresh = t;
    last_failure = zero_time;
    last_error = none;
  }

  refresh_once-IsHealthy :
      (c : Cache Public) (w : W) (keys : KeyMap Public) (h : IsHealthy c w keys)
      → refresh_once ecdsa net c w ≡ (
        refreshed (record c {
          keys = keys;
          expiry = add (net.now h.received).0 c.cache_ttl;
          last_refresh = (net.now h.received).0;
        }),
        (net.now h.received).1,
      )
  unfolding refresh_once
  refresh_once-IsHealthy c w keys h =
      let read = read_limited-whole c.max_document_size h.response.body h.whole h.fits h.limited in
      ground (arith, h.made, h.sent, h.status, read, h.read, h.fits)

  refresh-first :
      (waits : List Duration) (c d : Cache Public) (w v : W)
      → refresh_once ecdsa net c w ≡ (refreshed d, v)
      → refresh_with ecdsa net waits c w ≡ (refreshed d, v)
  unfolding refresh_with
  refresh-first [] c d w v h = rw h refl
  refresh-first (t ∷ waits) c d w v h = rw h refl

  -- The outside after a fetch from a healthy endpoint: the clock was read twice.
  abbrev pub after_fetch_of :
      {c : Cache Public} {w : W} {keys : KeyMap Public} → IsHealthy c w keys → W
  after_fetch_of h = (net.now (net.now h.received).1).1

  abbrev pub refreshed_at :
      {c : Cache Public} {w : W} {keys : KeyMap Public} → IsHealthy c w keys → Time
  refreshed_at h = (net.now h.received).0

  fetch_locked-IsHealthy :
      (c : Cache Public) (w : W) (keys : KeyMap Public) (h : IsHealthy c w keys)
      → fetch_locked ecdsa net c w ≡ record {
        result = ok tt;
        cache = filled_at c keys (refreshed_at h);
        outside = after_fetch_of h;
      }
  unfolding fetch_locked refresh
  fetch_locked-IsHealthy c w keys h =
      rw (refresh-first c.retry_backoff c _ w _ (refresh_once-IsHealthy c w keys h)) refl

  -- When Key has to ask: what it holds has expired, or has no such kid and is old enough to be asked
  -- for it again; and no failure is too recent.
  pub record Asks (c : Cache Public) (kid : String) (now : Time) : Type 0 where
    pub named : kid ≢ ""
    pub wanting :
        (c.expiry ≤ now)
        ⊎ (lookup kid c.keys ≡ none) × (ltb_ℤ (sub now c.last_refresh) c.refresh_cooldown ≡ false)
    pub rested :
        (c.last_failure ≡ zero_time) ⊎ (ltb_ℤ (sub now c.last_failure) c.failure_cooldown ≡ false)

  key_at-Asks :
      (c : Cache Public) (kid : String) (now : Time) (w : W)
      → Asks c kid now
      → key_at ecdsa net c kid now w ≡ key_by_fetch ecdsa net c kid now w
  unfolding key_at
  key_at-Asks c kid now w a = ground (arith, a.wanting)

  key_by_fetch-IsHealthy :
      (c : Cache Public) (kid : String) (now : Time) (w : W) (keys : KeyMap Public)
      (h : IsHealthy c w keys) (k : Public)
      → Asks c kid now
      → lookup kid keys ≡ some k
      → key_by_fetch ecdsa net c kid now w ≡ record {
        result = ok k;
        cache = filled_at c keys (refreshed_at h);
        outside = after_fetch_of h;
      }
  unfolding key_by_fetch
  key_by_fetch-IsHealthy c kid now w keys h k a found =
      let fetched = fetch_locked-IsHealthy c w keys h in ground (arith, a.rested, fetched, found)

  -- Where the endpoint is healthy, Key answers with the key that the endpoint's document has under a
  -- kid, even if that kid is new to the cache, whenever what it holds has expired or is old enough
  -- to ask again for an unknown kid, and no failure is too recent. The cache then holds the document's
  -- keys, from the moment they were read, and no failure.
  pub key-IsHealthy :
      (c : Cache Public) (kid : String) (w : W) (keys : KeyMap Public)
      (h : IsHealthy c (net.now w).1 keys) (k : Public)
      → Asks c kid (net.now w).0
      → lookup kid keys ≡ some k
      → key ecdsa net c kid w ≡ record {
        result = ok k;
        cache = filled_at c keys (refreshed_at h);
        outside = after_fetch_of h;
      }
  unfolding key
  key-IsHealthy c kid w keys h k a found =
      let other : (kid == "") ≡ false = ground (arith, eq_iff kid "", a.named) in
      rw other (
        key_at-Asks c kid (net.now w).0 (net.now w).1 a
        ∙ key_by_fetch-IsHealthy c kid (net.now w).0 (net.now w).1 keys h k a found)
