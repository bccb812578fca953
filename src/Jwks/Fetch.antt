-- ===== src/Jwks/Fetch.antt =====
-- jwks/cache.go: fetching the document and reading its keys.
use internal_jwt_handling.Base.{
  ℕ, List, [], ◌∷◌, ◌++◌, Option, none, some, not, ltb, leb, nat_eq, ◌||◌, Bool, true, false,
  length, is_some, if◌then◌else◌,
}
use internal_jwt_handling.Base.Int.{pos_part}
use internal_jwt_handling.Errors.{
  Error, sentinel, detail, wrap, jwks, JwksError, fetch, unexpected_status, document_too_large,
  decode_document, invalid_key,
}
use internal_jwt_handling.Time.{Duration, add}
use internal_jwt_handling.Result.{Result, ok, err, ◌>>=◌, ◌>>◌, reject, map_err}
use internal_jwt_handling.Jwk.{Jwk, Ecdsa, public_key}
use internal_jwt_handling.Jwks.Model.{
  KeyMap, lookup, Cache, Response, Network, read_limited, read_limit,
}

abbrev pub fault : JwksError → Error
fault e = sentinel (jwks e)

-- retryableStatus
unfoldable pub retryable_status : ℕ → Bool
retryable_status status = nat_eq status 429 || leb 500 status

-- The outcome of refreshOnce and of refresh: the refreshed cache, or an error and whether a later
-- attempt may recover from it. A failure leaves the cache alone.
pub data Attempt (Public : Type 0) : Type 0 where
  refreshed : Cache Public → Attempt Public
  failed : Bool → Error → Attempt Public

module _ {Public : Type 0} (ecdsa : Ecdsa Public) where
  -- The loop of parseKeys, over the keys read so far.
  unfoldable pub parse_from : KeyMap Public → List Jwk → Result (KeyMap Public)
  parse_from keys [] = ok keys
  parse_from keys (value ∷ values) = do
    key ← map_err (λ e. wrap (detail (fault invalid_key) value.key_id) e) (public_key ecdsa value)
    reject (is_some (lookup value.key_id keys))
        (detail (fault JwksError.duplicate_key_id) value.key_id)
    parse_from (keys ++ (value.key_id, key) ∷ []) values

  module _ {W : Type 0} (net : Network W) where
    -- parseKeys
    unfoldable pub parse_keys : List ℕ → Result (KeyMap Public)
    unfolding parse_from
    parse_keys encoded = do
      document ← map_err (wrap (fault decode_document)) (net.unmarshal encoded)
      parse_from [] document.keys

    abbrev pub install : Cache Public → KeyMap Public → W → Attempt Public × W
    install c keys w =
        let (t, w') = net.now w in
        (refreshed (record c { keys = keys; expiry = add t c.cache_ttl; last_refresh = t }), w')

    abbrev pub read_document : Cache Public → List ℕ → W → Attempt Public × W
    read_document c encoded w =
        if ltb (pos_part c.max_document_size) (length encoded)
        then (failed false (fault document_too_large), w)
        else elim (parse_keys encoded) [ err e ↦ (failed false e, w) | ok keys ↦ install c keys w ]

    abbrev pub read_response : Cache Public → Result Response × W → Attempt Public × W
    read_response c (err e, w) = (failed true (wrap (fault fetch) e), w)
    read_response c (ok response, w) =
        if not (nat_eq response.status_code 200)
        then (
          failed (retryable_status response.status_code)
              (detail (fault unexpected_status) response.status),
          w,
        )
        else elim (read_limited (read_limit c.max_document_size) response.body) [
          | err e ↦ (failed true (wrap (fault fetch) e), w)
          | ok encoded ↦ read_document c encoded w
        ]

    -- refreshOnce
    unfoldable pub refresh_once : Cache Public → W → Attempt Public × W
    refresh_once c w = elim (net.new_request c.url) [
      | some e ↦ (failed false (wrap (fault fetch) e), w)
      | none ↦ read_response c (net.send c.url c.fetch_timeout w)
    ]

    -- What a round of refresh does after its attempt; `next` is the round after a wait.
    abbrev pub after_attempt :
        (W → Attempt Public × W) → Option Duration → Attempt Public × W → Attempt Public × W
    after_attempt next wait (refreshed c, w) = (refreshed c, w)
    after_attempt next none (failed retryable e, w) = (failed retryable e, w)
    after_attempt next (some d) (failed retryable e, w) =
        if not retryable || net.is_over w
        then (failed retryable e, w)
        else (let (waited, w') = net.sleep d w in
            elim waited [ some _ ↦ (failed retryable e, w') | none ↦ next w' ])

    -- refresh, with the waits between the attempts that are left
    unfoldable pub refresh_with : List Duration → Cache Public → W → Attempt Public × W
    refresh_with [] c w =
        after_attempt (λ v. (failed false (fault fetch), v)) none (refresh_once c w)
    refresh_with (d ∷ waits) c w =
        after_attempt (λ v. refresh_with waits c v) (some d) (refresh_once c w)

    -- refresh
    unfoldable pub refresh : Cache Public → W → Attempt Public × W
    refresh c w = refresh_with c.retry_backoff c w
