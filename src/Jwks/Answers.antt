-- ===== src/Jwks/Answers.antt =====
-- The keys that Key of jwks/cache.go answers with, and what every call keeps of a cache.
use internal_jwt_handling.Base.{
  String, [], none, some, ◌≡◌, refl, ◌==◌, ◌≢◌, ◌⊎◌, inl, inr, ◌<◌, arith, Option-cases, Bool-cases,
  sym, ◌∙◌, ap,
}
use internal_jwt_handling.Base.Int.{pos}
use internal_jwt_handling.Errors.{Error}
use internal_jwt_handling.Time.{Time, zero_time, max_duration, before}
use internal_jwt_handling.Result.{ok, err}
use internal_jwt_handling.Result.Inversion.{result_cases}
use internal_jwt_handling.Io.Inversion.{outcome}
use internal_jwt_handling.Jwk.{Ecdsa}
use internal_jwt_handling.Jwks.Model.{lookup, Cache, Network, Response, read_limited, read_limit}
use internal_jwt_handling.Jwks.Fetch.{refreshed, refresh_once, read_response, parse_keys}
use internal_jwt_handling.Jwks.Refreshing.{IsRefresh}
use internal_jwt_handling.Jwks.Lookup.{fetch_locked, key_by_fetch, key_at, key, unknown}
use internal_jwt_handling.Jwks.Serving.{IsCoherent, fetch_locked-Leaves, fetch_locked-IsCoherent}

module _ {W Public : Type 0} (ecdsa : Ecdsa Public) (net : Network W) where
  -- Where a served key comes from: the cache as it was, not yet expired, or a refresh that this very
  -- call made, from the response to one of its own requests.
  pub record Serves (c : Cache Public) (kid : String) (now : Time) (w : W) (k : Public)
      (d : Cache Public) : Type 0 where
    pub held : lookup kid d.keys ≡ some k
    pub source :
        (now < c.expiry) × (d ≡ c)
        ⊎ ((x : Cache Public) × IsRefresh ecdsa net c w x
            × (d ≡ record x { last_failure = zero_time; last_error = none }))

  key_by_fetch-Serves :
      (c : Cache Public) (kid : String) (now : Time) (w : W) (k : Public)
      → (key_by_fetch ecdsa net c kid now w).result ≡ ok k
      → Serves c kid now w k (key_by_fetch ecdsa net c kid now w).cache
  unfolding key_by_fetch
  key_by_fetch-Serves c kid now w k h = elim (result_cases (fetch_locked ecdsa net c w).result) [
    | inr (e, lost) ↦ absurd (ground arith)
    | inl (u, done) ↦
        let (x, r, left) = (fetch_locked-Leaves ecdsa net c w).success done in
        elim (Option-cases (lookup kid (fetch_locked ecdsa net c w).cache.keys)) [
          | inl missed ↦ absurd (ground arith)
          | inr (j, found) ↦ record { held = ground arith; source = inr (x, r, ground arith) }
        ]
  ]

  -- The ways in which Key goes on once the clock is read.
  key_at-cases :
      (c : Cache Public) (kid : String) (now : Time) (w : W)
      → ((j : Public) × (now < c.expiry)
          × (lookup kid c.keys ≡ some j)
          × (key_at ecdsa net c kid now w ≡ record { result = ok j; cache = c; outside = w }))
        ⊎ (key_at ecdsa net c kid now w
            ≡ record { result = err (unknown kid); cache = c; outside = w })
        ⊎ (key_at ecdsa net c kid now w ≡ key_by_fetch ecdsa net c kid now w)
  unfolding key_at
  key_at-cases c kid now w = elim (Option-cases (lookup kid c.keys)) [
    | inr (j, found) ↦ elim (Bool-cases (before now c.expiry)) [
      | inl fresh ↦ inl (j, ground arith, found, ground arith)
      | inr expired ↦ inr (inr (ground arith))
    ]
    | inl missed ↦ ground arith
  ]

  -- A key that Key answers with stands in the cache under its kid, and that cache is either the one
  -- from before, not yet expired, or has the keys of a document that was the response to a request of
  -- this very call: no key is served past its TTL.
  pub key_at-Serves :
      (c : Cache Public) (kid : String) (now : Time) (w : W) (k : Public)
      → (key_at ecdsa net c kid now w).result ≡ ok k
      → Serves c kid now w k (key_at ecdsa net c kid now w).cache
  key_at-Serves c kid now w k h = elim (key_at-cases c kid now w) [
    | inl (j, fresh, found, e) ↦ record { held = ground arith; source = inl (fresh, ground arith) }
    | inr (inl e) ↦ absurd (ground arith)
    | inr (inr e) ↦ rw e (key_by_fetch-Serves c kid now w k (sym (ap (λ o. o.result) e) ∙ h))
  ]

  key_by_fetch-cache :
      (c : Cache Public) (kid : String) (now : Time) (w : W)
      → ((key_by_fetch ecdsa net c kid now w).cache ≡ c)
        ⊎ ((key_by_fetch ecdsa net c kid now w).cache ≡ (fetch_locked ecdsa net c w).cache)
  unfolding key_by_fetch
  key_by_fetch-cache c kid now w = elim (result_cases (fetch_locked ecdsa net c w).result) [
    | inl (u, done) ↦ ground arith
    | inr (e, lost) ↦ ground arith
  ]

  key_at-cache :
      (c : Cache Public) (kid : String) (now : Time) (w : W)
      → ((key_at ecdsa net c kid now w).cache ≡ c)
        ⊎ ((key_at ecdsa net c kid now w).cache ≡ (fetch_locked ecdsa net c w).cache)
  key_at-cache c kid now w = elim (key_at-cases c kid now w) [
    | inl (j, fresh, found, e) ↦ inl (ap (λ o. o.cache) e)
    | inr (inl e) ↦ inl (ap (λ o. o.cache) e)
    | inr (inr e) ↦ rw e (key_by_fetch-cache c kid now w)
  ]

  -- Key leaves a cache alone or as one fetch leaves it.
  pub key-cache :
      (c : Cache Public) (kid : String) (w : W)
      → ((key ecdsa net c kid w).cache ≡ c)
        ⊎ ((key ecdsa net c kid w).cache ≡ (fetch_locked ecdsa net c (net.now w).1).cache)
  unfolding key
  key-cache c kid w = elim (Bool-cases (kid == "")) [
    | inl empty ↦ inl (rw empty refl)
    | inr filled ↦ rw (filled, key) (key_at-cache c kid (net.now w).0 (net.now w).1)
  ]

  -- Key keeps every cache coherent: it holds keys only until the TTL after its last refresh, and a
  -- recorded failure has its error.
  pub key-IsCoherent :
      (c : Cache Public) (kid : String) (w : W)
      → IsCoherent c
      → IsCoherent (key ecdsa net c kid w).cache
  key-IsCoherent c kid w k = elim (key-cache c kid w) [
    | inl same ↦ rw same k
    | inr fetched ↦ rw fetched (fetch_locked-IsCoherent ecdsa net c (net.now w).1 k)
  ]

  read_whole :
      (c : Cache Public) (w : W) (response : Response) (d : Cache Public)
      → c.max_document_size ≡ pos max_duration
      → (e : Error) → net.unmarshal [] ≡ err e
      → (read_response ecdsa net c (ok response, w)).0 ≢ refreshed d
  unfolding read_limit read_limited parse_keys
  read_whole c w response d size e empty h = ground arith

  -- A cache whose MaxDocumentSize is the greatest int64 never fetches its keys, if an empty document
  -- does not decode: its limit wraps round to a negative one, and nothing of a body is read.
  pub refresh_once-greatest_size :
      (c : Cache Public) (w : W) (d : Cache Public) (e : Error)
      → c.max_document_size ≡ pos max_duration
      → net.unmarshal [] ≡ err e
      → (refresh_once ecdsa net c w).0 ≢ refreshed d
  unfolding refresh_once
  refresh_once-greatest_size c w d e size empty h = elim (Option-cases (net.new_request c.url)) [
    | inr (x, refused) ↦ ground arith
    | inl made ↦ elim (outcome (net.send c.url c.fetch_timeout w)) [
      | inr (x, v, lost) ↦ ground arith
      | inl (response, v, sent) ↦ read_whole c v response d size e empty (ground arith)
    ]
  ]
