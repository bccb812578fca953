-- ===== src/Agreement/Rooted.antt =====
-- Which keys can have signed a token that verifier/verifier.go accepts with a Cache of jwks/cache.go
-- as its key resolver.
use internal_jwt_handling.Base.{
  String, some, ◌≡◌, refl, sym, subst, ◌⊎◌, inl, inr, ◌<◌, arith, eq_iff, ap, ◌∙◌,
}
use internal_jwt_handling.Result.{ok}
use internal_jwt_handling.Io.{Io}
use internal_jwt_handling.Jwk.{Ecdsa, algorithm}
use internal_jwt_handling.Claims.{Claims}
use internal_jwt_handling.Jwks.Model.{KeyMap, Cache, Network, lookup}
use internal_jwt_handling.Jwks.Lookup.{key_at, key}
use internal_jwt_handling.Jwks.Refreshing.{IsRefresh}
use internal_jwt_handling.Jwks.Answers.{Serves, key_at-Serves}
use internal_jwt_handling.Jwks.Reachable.{Reachable, IsRead, Reachable-IsSound}
use internal_jwt_handling.Verifier.Build.{Header, ParserOptions, Parser, Verifier}
use internal_jwt_handling.Verifier.Verify.{verify_for}
use internal_jwt_handling.Verifier.Trust.{IsReady, Parsed, IsTrusted, verify_for-ready}
use internal_jwt_handling.Agreement.Served.{resolver_of, resolver_of-key}

module _ {V Public : Type 0} (ecdsa : Ecdsa Public) (net : Network V)
    (signed : String → String → Public → Type 0) where
  -- A token that ES256 signs under a key, which stands under a kid in a document that the cache has
  -- read: in an earlier call and still within its lifetime, or in this one, from the response to one
  -- of its requests.
  pub record IsRooted (c : Cache Public) (v : V) (token : String) : Type 0 where
    pub kid : String
    pub key : Public
    pub signature : signed token algorithm key
    pub keys : KeyMap Public
    pub read : IsRead ecdsa net keys
    pub listed : lookup kid keys ≡ some key
    pub recent :
        ((net.now v).0 < c.expiry) × (keys ≡ c.keys)
        ⊎ ((d : Cache Public) × IsRefresh ecdsa net c (net.now v).1 d × (keys ≡ d.keys))

  -- A key of a cache that holds any was read from a document.
  held_read :
      (c : Cache Public) (kid : String) (k : Public)
      → Reachable ecdsa net c
      → lookup kid c.keys ≡ some k
      → IsRead ecdsa net c.keys
  unfolding lookup
  held_read c kid k r found = elim (Reachable-IsSound ecdsa net r).origin [
    | inl empty ↦ absurd (ground (arith, found))
    | inr read ↦ read
  ]

  served-IsRooted :
      (c : Cache Public) (v : V) (kid token : String) (k : Public)
      → Reachable ecdsa net c
      → signed token algorithm k
      → (d : Cache Public) → Serves ecdsa net c kid (net.now v).0 (net.now v).1 k d
      → IsRooted c v token
  served-IsRooted c v kid token k r signature d s = elim s.source [
    | inl (fresh, same) ↦
        let found : lookup kid c.keys ≡ some k =
          subst (λ x. lookup kid x.keys ≡ some k) same s.held in
        record {
          kid = kid;
          key = k;
          signature = signature;
          keys = c.keys;
          read = held_read c kid k r found;
          listed = found;
          recent = inl (fresh, refl);
        }
    | inr (x, f, same) ↦ record {
      kid = kid;
      key = k;
      signature = signature;
      keys = f.fetched.keys;
      read = record { encoded = f.fetched.encoded; read = f.fetched.read };
      listed =
          subst (λ ks. lookup kid ks ≡ some k)
            (ap (λ y. y.keys) same ∙ ap (λ y. y.keys) f.fetched.fresh) s.held;
      recent = inr (x, f, sym (ap (λ y. y.keys) f.fetched.fresh));
    }
  ]

  key-Serves :
      (c : Cache Public) (v : V) (kid : String) (k : Public)
      → (key ecdsa net c kid v).result ≡ ok k
      → (d : Cache Public) × Serves ecdsa net c kid (net.now v).0 (net.now v).1 k d
  unfolding key
  key-Serves c v kid k h =
      let now = (net.now v).0 in
      let u = (net.now v).1 in
      (
        (key_at ecdsa net c kid now u).cache,
        key_at-Serves ecdsa net c kid now u k (ground (arith, eq_iff kid "")),
      )

  module _ (parse : Parser (V × Cache Public) Public)
      (parses : (o : ParserOptions (V × Cache Public)) (token : String)
          (find : Header → Io (V × Cache Public) Public) (w w' : V × Cache Public) (c : Claims)
        → parse o token find w ≡ (ok c, w')
        → Parsed signed o token find w c)
      (x : Verifier (V × Cache Public) Public) (ready : IsReady x)
      (cached : x.keys ≡ resolver_of ecdsa net) where
    -- With a parser that does what it documents, a token that is accepted with the keys of a cache, in
    -- whatever state New, Key and Refresh have brought it to, is trusted as without one, and ES256
    -- signs it under a key that stands under a kid in a document that the cache has read: in an earlier
    -- call and still within its lifetime, or in this one, from the response to one of its requests.
    pub verify_for-IsRooted :
        (token audience : String) (v : V) (c : Cache Public) (w' : V × Cache Public)
        (claims : Claims)
        → Reachable ecdsa net c
        → verify_for parse x token audience (v, c) ≡ (ok claims, w')
        → IsTrusted signed x ready.clock audience token (v, c) claims × IsRooted c v token
    verify_for-IsRooted token audience v c w' claims r h =
        let t = verify_for-ready signed parse parses x ready token audience (v, c) w' claims h in
        let o = t.offered in
        let resolved : resolver_of ecdsa net o.kid (v, c) ≡ (ok (some t.key), t.after) =
          subst (λ f. f o.kid (v, c) ≡ (ok (some t.key), t.after)) cached o.resolved in
        let answered = resolver_of-key ecdsa net o.kid c v t.key t.after resolved in
        let (d, served) = key-Serves c v o.kid t.key answered in
        (t, served-IsRooted c v o.kid token t.key r t.signature d served)
