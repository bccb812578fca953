-- ===== src/Agreement/Served.antt =====
-- The whole way of a token: signed by issuer/issuer.go, whose key set jwks/cache.go fetches, and
-- verified by verifier/verifier.go with that cache as its key resolver.
use internal_jwt_handling.Base.{
  inl, inr, String, Option, none, some, ◌≡◌, refl, ◌≢◌, inl, inr, ◌≤◌, ◌<◌, ◌+◌, arith, length, ap,
  ◌∙◌, ◌∷◌, eq_refl,
}
use internal_jwt_handling.Base.Int.{pos_part}
use internal_jwt_handling.Time.{add, second, max_duration}
use internal_jwt_handling.Result.{Result, ok, err}
use internal_jwt_handling.Result.Inversion.{result_cases}
use internal_jwt_handling.Io.Inversion.{outcome}
use internal_jwt_handling.Jwk.{Jwks, Ecdsa}
use internal_jwt_handling.Jwk.RoundTrip.{IsStandard}
use internal_jwt_handling.Wire.{Payload}
use internal_jwt_handling.Wire.RoundTrip.{ReadsRegistered}
use internal_jwt_handling.Claims.{RegisteredClaims}
use internal_jwt_handling.Issuer.Model.{KeySet, Outside, Issuer, ExternalTokenInput, Issued}
use internal_jwt_handling.Issuer.Derive.Lifetime.{Truncates}
use internal_jwt_handling.Issuer.Issue.{issue_from_external}
use internal_jwt_handling.Issuer.Publish.{publish_keys, publish, issuer_jwks}
use internal_jwt_handling.Issuer.Publish.Readback.{Publishes, publish_keys-parse_from}
use internal_jwt_handling.Jwks.Model.{KeyMap, lookup, Cache, Network, Response}
use internal_jwt_handling.Jwks.Fetch.{parse_keys}
use internal_jwt_handling.Jwks.Lookup.{Outcome, key}
use internal_jwt_handling.Jwks.Healthy.{IsHealthy, Asks, key-IsHealthy}
use internal_jwt_handling.Verifier.Build.{KeyResolver, Parser, Verifier}
use internal_jwt_handling.Verifier.Verify.{verify_for}
use internal_jwt_handling.Verifier.Trust.{IsReady}
use internal_jwt_handling.Agreement.{Agrees}
use internal_jwt_handling.Agreement.Issued.{Shares, verify_for-issue_from_external}

-- The answer of a resolver whose keys are never nil.
abbrev not_nil : {A : Type 0} → Result A → Result (Option A)
not_nil (ok a) = ok (some a)
not_nil (err e) = err e

abbrev pub resolved_as :
    {V Public : Type 0} → Outcome V Public Public → Result (Option Public) × (V × Cache Public)
resolved_as o = (not_nil o.result, (o.outside, o.cache))

module _ {V Public : Type 0} (ecdsa : Ecdsa Public) (net : Network V) where
  -- A Cache as the KeyResolver of a verifier, for whom the cache is part of the outside.
  unfoldable pub resolver_of : KeyResolver (V × Cache Public) Public
  resolver_of kid (v, c) = resolved_as (key ecdsa net c kid v)

  -- A key that a cache resolves is the answer of its Key.
  pub resolver_of-key :
      (kid : String) (c : Cache Public) (v : V) (k : Public) (p : V × Cache Public)
      → resolver_of kid (v, c) ≡ (ok (some k), p)
      → (key ecdsa net c kid v).result ≡ ok k
  unfolding resolver_of
  resolver_of-key kid c v k p h = elim (result_cases (key ecdsa net c kid v).result) [
    | inl (j, found) ↦ ground (arith, found)
    | inr (e, lost) ↦ absurd (ground (arith, lost))
  ]

  -- An endpoint that answers a cache's next request with a document that its size limit admits.
  pub record IsPublished (c : Cache Public) (v : V) (document : Jwks) : Type 0 where
    pub made : net.new_request c.url ≡ none
    pub response : Response
    pub received : V
    pub sent : net.send c.url c.fetch_timeout v ≡ (ok response, received)
    pub status : response.status_code ≡ 200
    pub whole : response.body.fault ≡ none
    pub fits : length response.body.bytes ≤ pos_part c.max_document_size
    pub limited : pos_part c.max_document_size < max_duration
    pub written : net.unmarshal response.body.bytes ≡ ok document

  module _ {Private : Type 0} (public_of : Private → Public) (standard : IsStandard ecdsa) where
    -- An endpoint that answers with the published document of a key set is healthy: its keys are the
    -- public half of the signing key and the published keys.
    pub published-IsHealthy :
        (set : KeySet Private Public) (private : Private) (document : Jwks) (c : Cache Public)
        (v : V)
        → publish_keys ecdsa public_of set ≡ ok document
        → set.signing.key ≡ some private
        → IsPublished c v document
        → (map : KeyMap Public) × IsHealthy ecdsa net c v
            ((set.signing.key_id, public_of private) ∷ map)
          × Publishes set.published map
    unfolding parse_keys
    published-IsHealthy set private document c v made held p =
        let (other, map, found, published, read) =
          publish_keys-parse_from ecdsa public_of standard set document made in
        let same : other ≡ private = cc in
        (
          map,
          record {
            made = p.made;
            response = p.response;
            received = p.received;
            sent = p.sent;
            status = p.status;
            whole = p.whole;
            fits = p.fits;
            limited = p.limited;
            read = ground (arith, p.written, read, same);
          },
          published,
        )

    -- A cache that has to ask the issuer's endpoint answers to the issuer's kid with the public half
    -- of its signing key.
    resolver_of-published :
        (set : KeySet Private Public) (private : Private) (document : Jwks) (c : Cache Public)
        (v : V)
        → publish_keys ecdsa public_of set ≡ ok document
        → set.signing.key ≡ some private
        → IsPublished c (net.now v).1 document
        → Asks ecdsa net c set.signing.key_id (net.now v).0
        → (resolver_of set.signing.key_id (v, c)).0 ≡ ok (some (public_of private))
    unfolding resolver_of lookup
    resolver_of-published set private document c v made held p asks =
        let kid = set.signing.key_id in
        let k = public_of private in
        let (map, h, published) =
          published-IsHealthy set private document c (net.now v).1 made held p in
        let found : lookup kid ((kid, k) ∷ map) ≡ some k = rw (eq_refl kid) refl in
        ap (λ o. (resolved_as o).0)
          (key-IsHealthy ecdsa net c kid v ((kid, k) ∷ map) h k asks found)

    -- What JWKS returned is the published document of the key set that the provider gave.
    pub issuer_jwks-published :
        {W : Type 0} (i : Issuer W Private Public) (set : KeySet Private Public) (w w' : W)
        (document : Jwks)
        → (i.keys w).0 ≡ ok set
        → issuer_jwks ecdsa public_of i w ≡ (ok document, w')
        → publish_keys ecdsa public_of set ≡ ok document
    unfolding issuer_jwks publish
    issuer_jwks-published i set w w' document provided h = elim (outcome (i.keys w)) [
      | inl (k, u, e) ↦ ground (arith, provided)
      | inr (y, u, e) ↦ absurd (ground arith)
    ]

    module _ {W : Type 0} (out : Outside W Private) (parse : Parser (V × Cache Public) Public)
        (read : Payload → Result RegisteredClaims) (reads : ReadsRegistered read)
        (agrees : Agrees out parse read public_of) (truncates : Truncates out.numeric_date)
        (filled : (w : W) (s : String) → (out.new_v7 w).0 ≡ ok s → s ≢ "")
        (i : Issuer W Private Public) (x : Verifier (V × Cache Public) Public)
        (ready : IsReady x) where
      -- A verifier of the same issuer name, with a cache of keys as its resolver; and an issuer whose
      -- provider keeps its signing key.
      pub record IsConnected (set : KeySet Private Public) (private : Private) : Type 0 where
        pub issuer : i.issuer_id ≡ x.issuer_id
        pub provided : (w : W) → (i.keys w).0 ≡ ok set
        pub held : set.signing.key ≡ some private
        pub cached : x.keys ≡ resolver_of

      -- The verifier's outside once its resolver has answered.
      abbrev pub asked : KeySet Private Public → V → Cache Public → V × Cache Public
      asked set v c = (resolver_of set.signing.key_id (v, c)).1

      -- A token that IssueFromExternal returns is accepted, with the claims that came with it, for the
      -- input's audience, by a verifier of the same issuer name whose resolver is a Cache: where the
      -- issuer's provider keeps its signing key, the cache has to ask its endpoint, the endpoint
      -- answers with the document that JWKS has returned, and the verifier's clock then reads no less
      -- than the issuer's did and at least a second less than the end of the external token and than
      -- that of the issuer's lifetime; given a UUID that is not empty, and that crypto/ecdsa and
      -- golang-jwt are as documented.
      pub verify_for-served :
          (set : KeySet Private Public) (private : Private) (document : Jwks)
          (input : ExternalTokenInput) (issued : Issued) (w w' u u' : W) (v : V) (c : Cache Public)
          → IsConnected set private
          → issue_from_external out i input w ≡ (ok issued, w')
          → issuer_jwks ecdsa public_of i u ≡ (ok document, u')
          → IsPublished c (net.now v).1 document
          → Asks ecdsa net c set.signing.key_id (net.now v).0
          → (i.clock w).0 ≤ (ready.clock (asked set v c)).0
          → (ready.clock (asked set v c)).0 + second ≤ input.source_expires_at
          → (ready.clock (asked set v c)).0 + second ≤ add (i.clock w).0 i.ttl
          → (verify_for parse x issued.token input.audience (v, c)).0 ≡ ok issued.claims
      verify_for-served set private document input issued w w' u u' v c n h published p asks begun
            in_source in_ttl =
          let made = issuer_jwks-published i set u u' document (n.provided u) published in
          let answer = resolver_of-published set private document c v made n.held p asks in
          let shares : Shares out parse read public_of reads agrees i x ready set private (v, c)
              (asked set v c) =
            record {
              issuer = n.issuer;
              provided = n.provided;
              held = n.held;
              resolved =
                  ap (λ f. f set.signing.key_id (v, c)) n.cached
                  ∙ ap (λ r. (r, asked set v c)) answer;
            } in
          ap (λ p. p.0)
            (verify_for-issue_from_external out parse read public_of reads agrees i x ready
              truncates filled input w w' issued (v, c) (asked set v c) set private h shares begun
              in_source in_ttl)
