-- ===== src/Jwks/Refreshing.antt =====
-- What a refresh of jwks/cache.go does to the cache, and how often it asks the network.
use internal_jwt_handling.Io.Inversion.{outcome}
use internal_jwt_handling.Base.{
  refl, ◌⊎◌, ℕ, String, List, [], ◌∷◌, Option, none, some, ◌≡◌, inl, inr, ◌+◌, ◌≤◌, false, arith,
  length, Option-cases,
}
use internal_jwt_handling.Errors.{fetch}
use internal_jwt_handling.Time.{Duration, add}
use internal_jwt_handling.Base.Int.{pos_part}
use internal_jwt_handling.Result.Inversion.{result_cases}
use internal_jwt_handling.Result.{Result, ok, err}
use internal_jwt_handling.Jwk.{Ecdsa}
use internal_jwt_handling.Jwks.Model.{KeyMap, Cache, Network, Response, read_limited, read_limit}
use internal_jwt_handling.Jwks.Fetch.{
  Attempt, refreshed, failed, refresh_once, refresh_with, read_response, parse_keys, after_attempt,
  fault,
}

module _ {W Public : Type 0} (ecdsa : Ecdsa Public) (net : Network W) where
  -- The outside at the attempts of a refresh that begins in a state of it: each comes after another
  -- one and a wait.
  pub data Attempts (c : Cache Public) : W → W → Type 0 where
    first : {w : W} → Attempts c w w
    again :
        {w u : W} (d : Duration)
        → Attempts c (net.sleep d (refresh_once ecdsa net c w).1).1 u
        → Attempts c w u

  -- What an attempt leaves of the cache: the keys of the document that the response to its request
  -- had, read whole and no longer than the limit, with the time of the clock just after it, from which
  -- they are served for the TTL; all else is as it was.
  pub record IsFetched (c : Cache Public) (w : W) (d : Cache Public) : Type 0 where
    pub response : Response
    pub received : W
    pub sent : net.send c.url c.fetch_timeout w ≡ (ok response, received)
    pub status : response.status_code ≡ 200
    pub encoded : List ℕ
    pub whole : read_limited (read_limit c.max_document_size) response.body ≡ ok encoded
    pub within : length encoded ≤ pos_part c.max_document_size
    pub keys : KeyMap Public
    pub read : parse_keys ecdsa net encoded ≡ ok keys
    pub fresh : d ≡ record c {
      keys = keys;
      expiry = add (net.now received).0 c.cache_ttl;
      last_refresh = (net.now received).0;
    }

  -- A cache that was refreshed by the last attempt of a refresh.
  pub record IsRefresh (c : Cache Public) (w : W) (d : Cache Public) : Type 0 where
    pub tried : W
    pub attempts : Attempts c w tried
    pub fetched : IsFetched c tried d

  read_response-IsFetched :
      (c d : Cache Public) (w u : W) (response : Response)
      → net.send c.url c.fetch_timeout w ≡ (ok response, u)
      → (read_response ecdsa net c (ok response, u)).0 ≡ refreshed d
      → IsFetched c w d
  read_response-IsFetched c d w u response sent h =
      elim (result_cases (read_limited (read_limit c.max_document_size) response.body)) [
        | inr (e, faulty) ↦ absurd (ground arith)
        | inl (encoded, whole) ↦ elim (result_cases (parse_keys ecdsa net encoded)) [
          | inr (e, bad) ↦ absurd (ground arith)
          | inl (keys, good) ↦ record {
            response = response;
            received = u;
            sent = sent;
            status = ground arith;
            encoded = encoded;
            whole = whole;
            within = ground arith;
            keys = keys;
            read = good;
            fresh = ground arith;
          }
        ]
      ]

  refresh_once-IsFetched :
      (c d : Cache Public) (w : W) → (refresh_once ecdsa net c w).0 ≡ refreshed d → IsFetched c w d
  unfolding refresh_once
  refresh_once-IsFetched c d w h = elim (Option-cases (net.new_request c.url)) [
    | inr (e, refused) ↦ absurd (ground arith)
    | inl made ↦ elim (outcome (net.send c.url c.fetch_timeout w)) [
      | inr (e, u, lost) ↦ absurd (ground arith)
      | inl (response, u, sent) ↦ read_response-IsFetched c d w u response sent (ground arith)
    ]
  ]

  at_once : (c d : Cache Public) (w : W) → IsFetched c w d → IsRefresh c w d
  at_once c d w f = record { tried = w; attempts = first; fetched = f }

  later :
      (c d : Cache Public) (t : Duration) (w : W)
      → IsRefresh c (net.sleep t (refresh_once ecdsa net c w).1).1 d
      → IsRefresh c w d
  later c d t w r = record { tried = r.tried; attempts = again t r.attempts; fetched = r.fetched }

  -- A round of a refresh ends with its attempt, or goes on after a wait.
  after_attempt-cases :
      (d : Cache Public) (next : W → Attempt Public × W) (wait : Option Duration)
      (p : Attempt Public × W)
      → (after_attempt ecdsa net next wait p).0 ≡ refreshed d
      → (p.0 ≡ refreshed d)
        ⊎ ((t : Duration) × (wait ≡ some t) × ((next (net.sleep t p.1).1).0 ≡ refreshed d))
  after_attempt-cases d next wait (refreshed x, w) e = inl e
  after_attempt-cases d next none (failed retryable x, w) e = cc
  after_attempt-cases d next (some t) (failed retryable x, w) e =
      elim (Option-cases (net.sleep t w).0) [
        | inr (y, over) ↦ absurd (ground arith)
        | inl waited ↦ inr (t, refl, ground arith)
      ]

  -- A refresh that succeeds installs the keys of one document, which was the response to a request of
  -- this refresh, read whole and no longer than the limit, and changes nothing of the cache but the
  -- keys and their two times.
  pub refresh_with-IsRefresh :
      (waits : List Duration) (c d : Cache Public) (w : W)
      → (refresh_with ecdsa net waits c w).0 ≡ refreshed d
      → IsRefresh c w d
  unfolding refresh_with
  refresh_with-IsRefresh [] c d w h =
      elim (after_attempt-cases d (λ v. (failed false (fault fetch), v)) none
        (refresh_once ecdsa net c w) h) [
          | inl done ↦ at_once c d w (refresh_once-IsFetched c d w done)
          | inr (t, waits, e) ↦ cc
        ]
  refresh_with-IsRefresh (t ∷ waits) c d w h =
      elim (after_attempt-cases d (refresh_with ecdsa net waits c) (some t)
        (refresh_once ecdsa net c w) h) [
          | inl done ↦ at_once c d w (refresh_once-IsFetched c d w done)
          | inr (u, same, e) ↦
              later c d u w
                (refresh_with-IsRefresh waits c d (net.sleep u (refresh_once ecdsa net c w).1).1 e)
        ]

  module _ (asked : W → ℕ)
      (counts_send : (url : String) (d : Duration) (w : W)
        → asked (net.send url d w).1 ≤ asked w + 1)
      (counts_now : (w : W) → asked (net.now w).1 ≡ asked w)
      (counts_sleep : (d : Duration) (w : W) → asked (net.sleep d w).1 ≡ asked w) where
    read_response-bounded :
        (c : Cache Public) (p : Result Response × W)
        → asked (read_response ecdsa net c p).1 ≤ asked p.1
    read_response-bounded c (err e, w) = omega arith
    read_response-bounded c (ok response, w) =
        elim (result_cases (read_limited (read_limit c.max_document_size) response.body)) [
          | inr (e, faulty) ↦ ground (arith, faulty)
          | inl (encoded, whole) ↦ ground (arith, whole, counts_now w)
        ]

    refresh_once-bounded :
        (c : Cache Public) (w : W) → asked (refresh_once ecdsa net c w).1 ≤ asked w + 1
    unfolding refresh_once
    refresh_once-bounded c w = elim (Option-cases (net.new_request c.url)) [
      | inr (e, refused) ↦ ground (arith, refused)
      | inl made ↦ ground (
        arith,
        made,
        read_response-bounded c (net.send c.url c.fetch_timeout w),
        counts_send c.url c.fetch_timeout w,
      )
    ]

    after_attempt-bounded :
        (n : ℕ) (next : W → Attempt Public × W) (d : Duration) (p : Attempt Public × W)
        → ((v : W) → asked (next v).1 ≤ asked v + n)
        → asked (after_attempt ecdsa net next (some d) p).1 ≤ asked p.1 + n
    after_attempt-bounded n next d (refreshed c, w) h = omega arith
    after_attempt-bounded n next d (failed retryable e, w) h =
        ground (arith, counts_sleep d w, h (net.sleep d w).1)

    -- A refresh sends at most one request more than it has waits between attempts.
    pub refresh_with-bounded :
        (waits : List Duration) (c : Cache Public) (w : W)
        → asked (refresh_with ecdsa net waits c w).1 ≤ asked w + (length waits + 1)
    unfolding refresh_with
    refresh_with-bounded [] c w = ground (arith, refresh_once-bounded c w)
    refresh_with-bounded (d ∷ waits) c w = omega (
      arith,
      after_attempt-bounded (length waits + 1) (refresh_with ecdsa net waits c) d
          (refresh_once ecdsa net c w) (refresh_with-bounded waits c),
      refresh_once-bounded c w,
    )
