-- ===== src/Agreement/Rotated.antt =====
-- Key rotation: a token of issuer/issuer.go whose key no longer signs, but is still published.
use internal_jwt_handling.Base.{
  String, List, [], ◌∷◌, some, ◌≡◌, sym, subst, ◌≢◌, ◌⊎◌, inl, inr, ◌≤◌, ◌+◌, arith, eq_iff, In, ap,
  ◌∙◌,
}
use internal_jwt_handling.Time.{add, second}
use internal_jwt_handling.Result.{Result, ok}
use internal_jwt_handling.Jwk.{Jwks, Ecdsa}
use internal_jwt_handling.Jwk.RoundTrip.{IsStandard}
use internal_jwt_handling.Wire.{Payload}
use internal_jwt_handling.Wire.RoundTrip.{ReadsRegistered}
use internal_jwt_handling.Claims.{RegisteredClaims}
use internal_jwt_handling.Issuer.Model.{
  KeySet, PublishedKey, Outside, Issuer, ExternalTokenInput, Issued,
}
use internal_jwt_handling.Issuer.Derive.Lifetime.{Truncates}
use internal_jwt_handling.Issuer.Issue.{issue_from_external}
use internal_jwt_handling.Issuer.Publish.{publish_keys, issuer_jwks}
use internal_jwt_handling.Issuer.Publish.Readback.{Publishes}
use internal_jwt_handling.Jwks.Model.{KeyMap, lookup, Cache, Network}
use internal_jwt_handling.Jwks.Documents.{Distinct}
use internal_jwt_handling.Jwks.Healthy.{Asks, key-IsHealthy}
use internal_jwt_handling.Jwks.Reachable.{names, parse_keys-Distinct}
use internal_jwt_handling.Verifier.Build.{Parser, Verifier}
use internal_jwt_handling.Verifier.Verify.{verify_for}
use internal_jwt_handling.Verifier.Trust.{IsReady}
use internal_jwt_handling.Agreement.{Agrees}
use internal_jwt_handling.Agreement.Issued.{Shares, verify_for-issue_from_external}
use internal_jwt_handling.Agreement.Served.{
  resolver_of, resolved_as, IsPublished, published-IsHealthy, issuer_jwks-published,
}

-- One of the published keys has the kid.
abbrev pub Lists : {Public : Type 0} → String → Public → List (PublishedKey Public) → Type 0
Lists kid k [] = ⊥
Lists kid k (p ∷ ps) = (p.key_id ≡ kid) × (p.key ≡ some k) ⊎ Lists kid k ps

module _ {Public : Type 0} where
  Lists-In :
      (kid : String) (k : Public) (ps : List (PublishedKey Public)) (map : KeyMap Public)
      → Publishes ps map
      → Lists kid k ps
      → In kid (names map)
  Lists-In kid k [] map p h = absurd h
  Lists-In kid k (x ∷ ps) [] p h = absurd p
  Lists-In kid k (x ∷ ps) ((j, y) ∷ map) (same, given, p) (inl (named, has)) = inl (same ∙ named)
  Lists-In kid k (x ∷ ps) ((j, y) ∷ map) (same, given, p) (inr later) =
      inr (Lists-In kid k ps map p later)

  -- An entry under a kid that comes again further on is not there in a map without repeated kids.
  lookup-later :
      (kid j : String) (y : Public) (map : KeyMap Public)
      → Distinct (names ((j, y) ∷ map))
      → In kid (names map)
      → lookup kid ((j, y) ∷ map) ≡ lookup kid map
  unfolding lookup
  lookup-later kid j y map (absent, d) later =
      ground
        (arith, eq_iff j kid, λ (e : j ≡ kid). absent (subst (λ x. In x (names map)) (sym e) later))

  Lists-lookup :
      (kid : String) (k : Public) (ps : List (PublishedKey Public)) (map : KeyMap Public)
      → Publishes ps map
      → Distinct (names map)
      → Lists kid k ps
      → lookup kid map ≡ some k
  Lists-lookup kid k [] map p d h = absurd h
  Lists-lookup kid k (x ∷ ps) [] p d h = absurd p
  Lists-lookup kid k (x ∷ ps) ((j, y) ∷ map) (same, given, p) d (inl (named, has)) =
      unfold lookup in ground (arith, same, named, given, has, eq_iff j kid)
  Lists-lookup kid k (x ∷ ps) ((j, y) ∷ map) (same, given, p) (absent, d) (inr later) =
      lookup-later kid j y map (absent, d) (Lists-In kid k ps map p later)
      ∙ Lists-lookup kid k ps map p d later

module _ {V Private Public : Type 0} (ecdsa : Ecdsa Public) (net : Network V)
    (public_of : Private → Public) (standard : IsStandard ecdsa) where
  -- A cache that has to ask the issuer's endpoint answers to the kid of each published key.
  resolver_of-Lists :
      (set : KeySet Private Public) (private : Private) (document : Jwks) (c : Cache Public) (v : V)
      (kid : String) (k : Public)
      → publish_keys ecdsa public_of set ≡ ok document
      → set.signing.key ≡ some private
      → IsPublished ecdsa net c (net.now v).1 document
      → Asks ecdsa net c kid (net.now v).0
      → Lists kid k set.published
      → (resolver_of ecdsa net kid (v, c)).0 ≡ ok (some k)
  unfolding resolver_of
  resolver_of-Lists set private document c v kid k made held p asks listed =
      let (map, h, published) =
        published-IsHealthy ecdsa net public_of standard set private document c (net.now v).1 made
          held p in
      let keys = (set.signing.key_id, public_of private) ∷ map in
      let distinct : Distinct (names keys) =
        parse_keys-Distinct ecdsa net h.response.body.bytes keys h.read in
      let found : lookup kid keys ≡ some k =
        lookup-later kid set.signing.key_id (public_of private) map distinct
          (Lists-In kid k set.published map published listed)
        ∙ Lists-lookup kid k set.published map published distinct.1 listed in
      ap (λ o. (resolved_as o).0) (key-IsHealthy ecdsa net c kid v keys h k asks found)

  module _ {W U : Type 0} (out : Outside W Private) (parse : Parser (V × Cache Public) Public)
      (read : Payload → Result RegisteredClaims) (reads : ReadsRegistered read)
      (agrees : Agrees out parse read public_of) (truncates : Truncates out.numeric_date)
      (filled : (w : W) (s : String) → (out.new_v7 w).0 ≡ ok s → s ≢ "")
      (i : Issuer W Private Public) (later : Issuer U Private Public)
      (x : Verifier (V × Cache Public) Public) (ready : IsReady x)
      (cached : x.keys ≡ resolver_of ecdsa net) where
    -- The verifier's outside once its resolver has answered to a kid.
    abbrev answered : String → V → Cache Public → V × Cache Public
    answered kid v c = (resolver_of ecdsa net kid (v, c)).1

    -- A token that IssueFromExternal returns outlives its signing key: it is still accepted, with the
    -- claims that came with it, for the input's audience, by a verifier of the same issuer name whose
    -- Cache has to ask an endpoint that now answers with the JWKS of an issuer which signs with another
    -- key and lists the old one's public half under its kid; where the verifier's clock then reads no
    -- less than the issuer's did and at least a second less than the end of the external token and than
    -- that of the issuer's lifetime; given a UUID that is not empty, and that crypto/ecdsa and
    -- golang-jwt are as documented.
    pub verify_for-rotated :
        (set rotated : KeySet Private Public) (private other : Private) (document : Jwks)
        (input : ExternalTokenInput) (issued : Issued) (w w' : W) (u u' : U) (v : V)
        (c : Cache Public)
        → i.issuer_id ≡ x.issuer_id
        → ((w : W) → (i.keys w).0 ≡ ok set)
        → set.signing.key ≡ some private
        → (later.keys u).0 ≡ ok rotated
        → rotated.signing.key ≡ some other
        → Lists set.signing.key_id (public_of private) rotated.published
        → issue_from_external out i input w ≡ (ok issued, w')
        → issuer_jwks ecdsa public_of later u ≡ (ok document, u')
        → IsPublished ecdsa net c (net.now v).1 document
        → Asks ecdsa net c set.signing.key_id (net.now v).0
        → (i.clock w).0 ≤ (ready.clock (answered set.signing.key_id v c)).0
        → (ready.clock (answered set.signing.key_id v c)).0 + second ≤ input.source_expires_at
        → (ready.clock (answered set.signing.key_id v c)).0 + second ≤ add (i.clock w).0 i.ttl
        → (verify_for parse x issued.token input.audience (v, c)).0 ≡ ok issued.claims
    verify_for-rotated set rotated private other document input issued w w' u u' v c same provided
          held turned signs listed h published p asks begun in_source in_ttl =
        let kid = set.signing.key_id in
        let made =
          issuer_jwks-published ecdsa net public_of standard later rotated u u' document turned
            published in
        let answer =
          resolver_of-Lists rotated other document c v kid (public_of private) made signs p asks
            listed in
        let shares : Shares out parse read public_of reads agrees i x ready set private (v, c)
            (answered kid v c) =
          record {
            issuer = same;
            provided = provided;
            held = held;
            resolved = ap (λ f. f kid (v, c)) cached ∙ ap (λ r. (r, answered kid v c)) answer;
          } in
        ap (λ q. q.0)
          (verify_for-issue_from_external out parse read public_of reads agrees i x ready truncates
            filled input w w' issued (v, c) (answered kid v c) set private h shares begun in_source
            in_ttl)
