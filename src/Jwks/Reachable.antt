-- ===== src/Jwks/Reachable.antt =====
-- Every state that New, Key and Refresh of jwks/cache.go bring a cache to.
use internal_jwt_handling.Base.{
  ◌⊎◌, ℕ, String, List, [], ◌∷◌, ◌≡◌, refl, sym, subst, inl, inr, arith, ap, ◌∙◌, ◌∙◌,
}
use internal_jwt_handling.Base.Int.{ℤ, pos, ◌<ℤ◌}
use internal_jwt_handling.Result.{Result, ok}
use internal_jwt_handling.Result.Inversion.{result_cases}
use internal_jwt_handling.Jwk.{Jwk, Ecdsa}
use internal_jwt_handling.Jwks.Model.{
  KeyMap, Cache, Settings, Network, ParsedUrl, Config, new, validate_url, or_default,
  or_default_size, default_cache_ttl, default_refresh_cooldown, default_failure_cooldown,
  default_fetch_timeout, default_max_document_size, default_cache_ttl, default_refresh_cooldown,
  default_failure_cooldown, default_fetch_timeout, default_max_document_size,
}
use internal_jwt_handling.Jwks.Fetch.{parse_keys}
use internal_jwt_handling.Jwks.Lookup.{fetch_locked, refresh_keys, key}
use internal_jwt_handling.Jwks.Documents.{Holds, Distinct, kids, parse_from-Holds_iff}
use internal_jwt_handling.Jwks.Serving.{
  IsCoherent, new-IsCoherent, fetch_locked-Leaves, fetch_locked-IsCoherent,
}
use internal_jwt_handling.Jwks.Answers.{key-cache}

-- The kids of a map.
abbrev pub names : {Public : Type 0} → KeyMap Public → List String
names [] = []
names ((kid, key) ∷ keys) = kid ∷ names keys

-- Settings that New has filled in: no lifetime, cooldown, timeout or size is 0 or less.
pub record IsPositive (s : Settings) : Type 0 where
  pub cache_ttl : pos 0 <ℤ s.cache_ttl
  pub refresh_cooldown : pos 0 <ℤ s.refresh_cooldown
  pub failure_cooldown : pos 0 <ℤ s.failure_cooldown
  pub fetch_timeout : pos 0 <ℤ s.fetch_timeout
  pub max_document_size : pos 0 <ℤ s.max_document_size

or_default_size-positive :
    (d value fallback : ℤ) → d ≡ or_default_size value fallback → pos 0 <ℤ fallback → pos 0 <ℤ d
unfolding or_default_size
or_default_size-positive d value fallback e h = ground arith

or_default-positive :
    (d value fallback : ℤ) → d ≡ or_default value fallback → pos 0 <ℤ fallback → pos 0 <ℤ d
unfolding or_default
or_default-positive d value fallback e h = ground arith

no_names : {Public : Type 0} (c : Cache Public) → c.keys ≡ [] → Distinct (names c.keys)
no_names c e = rw e tt

module _ {W Public : Type 0} (ecdsa : Ecdsa Public) (net : Network W) where
  -- A cache that New built, after any calls of Key and Refresh.
  pub data Reachable : Cache Public → Type 0 where
    built :
        {c : Cache Public} (parse : String → Result ParsedUrl) (config : Config)
        → new parse config ≡ ok c
        → Reachable c
    looked_up :
        {c : Cache Public} (kid : String) (w : W)
        → Reachable c
        → Reachable (key ecdsa net c kid w).cache
    refreshed :
        {c : Cache Public} (w : W) → Reachable c → Reachable (refresh_keys ecdsa net c w).cache

  -- Keys that parseKeys has read from the bytes of a document.
  pub record IsRead (keys : KeyMap Public) : Type 0 where
    pub encoded : List ℕ
    pub read : parse_keys ecdsa net encoded ≡ ok keys

  -- What every reachable cache keeps.
  pub record IsSound (c : Cache Public) : Type 0 where
    pub coherent : IsCoherent c
    pub positive : IsPositive c.settings
    pub distinct : Distinct (names c.keys)
    pub origin : (c.keys ≡ []) ⊎ IsRead c.keys

  Holds-names :
      (values : List Jwk) (keys : KeyMap Public)
      → Holds ecdsa values keys
      → names keys ≡ kids values
  Holds-names [] [] h = refl
  Holds-names [] (k ∷ keys) h = absurd h
  Holds-names (v ∷ values) [] h = absurd h
  Holds-names (v ∷ values) ((kid, k) ∷ keys) (same, good, h) =
      rw (same, Holds-names values keys h) refl

  pub parse_keys-Distinct :
      (encoded : List ℕ) (keys : KeyMap Public)
      → parse_keys ecdsa net encoded ≡ ok keys
      → Distinct (names keys)
  unfolding parse_keys
  parse_keys-Distinct encoded keys h = elim (result_cases (net.unmarshal encoded)) [
    | inr (e, bad) ↦ absurd (ground arith)
    | inl (document, good) ↦
        let (held, distinct) = (parse_from-Holds_iff ecdsa document.keys keys).0 (ground arith) in
        rw (Holds-names document.keys keys held) distinct
  ]

  new-IsSound :
      (parse : String → Result ParsedUrl) (config : Config) (c : Cache Public)
      → new parse config ≡ ok c
      → IsSound c
  unfolding new
  new-IsSound parse config c h =
      let coherent = new-IsCoherent parse config c h in
      elim (result_cases (validate_url parse config.url)) [
        | inr (e, bad) ↦ absurd (ground arith)
        | inl (u, good) ↦ record {
          coherent = coherent;
          positive = record {
            cache_ttl =
                or_default-positive _ config.cache_ttl default_cache_ttl (ground arith)
                  (omega arith);
            refresh_cooldown =
                or_default-positive _ config.refresh_cooldown default_refresh_cooldown
                  (ground arith) (omega arith);
            failure_cooldown =
                or_default-positive _ config.failure_cooldown default_failure_cooldown
                  (ground arith) (omega arith);
            fetch_timeout =
                or_default-positive _ config.fetch_timeout default_fetch_timeout (ground arith)
                  (omega arith);
            max_document_size =
                or_default_size-positive _ config.max_document_size default_max_document_size
                  (ground arith) (omega arith);
          };
          distinct = no_names c (ground arith);
          origin = inl (ground arith);
        }
      ]

  fetch_locked-IsSound :
      (c : Cache Public) (w : W) → IsSound c → IsSound (fetch_locked ecdsa net c w).cache
  fetch_locked-IsSound c w s =
      let l = fetch_locked-Leaves ecdsa net c w in
      let coherent = fetch_locked-IsCoherent ecdsa net c w s.coherent in
      elim (result_cases (fetch_locked ecdsa net c w).result) [
        | inl (u, done) ↦
            let (x, r, left) = l.success done in
            let settings : (fetch_locked ecdsa net c w).cache.settings ≡ c.settings =
              ap (λ d. d.settings) left ∙ ap (λ d. d.settings) r.fetched.fresh in
            let keys : (fetch_locked ecdsa net c w).cache.keys ≡ r.fetched.keys =
              ap (λ d. d.keys) left ∙ ap (λ d. d.keys) r.fetched.fresh in
            record {
              coherent = coherent;
              positive = subst IsPositive (sym settings) s.positive;
              distinct =
                  subst (λ ks. Distinct (names ks)) (sym keys)
                    (parse_keys-Distinct r.fetched.encoded r.fetched.keys r.fetched.read);
              origin = inr (record {
                encoded = r.fetched.encoded;
                read =
                    subst (λ ks. parse_keys ecdsa net r.fetched.encoded ≡ ok ks) (sym keys)
                      r.fetched.read;
              });
            }
        | inr (e, lost) ↦ elim (l.failure e lost) [
          | inl same ↦ rw same s
          | inr (t, noted) ↦ record {
            coherent = coherent;
            positive = subst IsPositive (sym (ap (λ d. d.settings) noted)) s.positive;
            distinct = subst (λ ks. Distinct (names ks)) (sym (ap (λ d. d.keys) noted)) s.distinct;
            origin = subst (λ ks. (ks ≡ []) ⊎ IsRead ks) (sym (ap (λ d. d.keys) noted)) s.origin;
          }
        ]
      ]

  key-IsSound :
      (c : Cache Public) (kid : String) (w : W) → IsSound c → IsSound (key ecdsa net c kid w).cache
  key-IsSound c kid w s = elim (key-cache ecdsa net c kid w) [
    | inl same ↦ rw same s
    | inr fetched ↦ rw fetched (fetch_locked-IsSound c (net.now w).1 s)
  ]

  -- Whatever calls are made of a cache, and whatever the network answers, the keys that it holds were
  -- read from one document, it holds them only until the TTL after its last refresh, a recorded failure
  -- has its error, no kid stands in it twice, and its lifetime, cooldowns, timeout and size limit are
  -- positive.
  pub Reachable-IsSound : {c : Cache Public} → Reachable c → IsSound c
  unfolding refresh_keys
  Reachable-IsSound {c} (built parse config h) = new-IsSound parse config c h
  Reachable-IsSound (looked_up {c} kid w r) = key-IsSound c kid w (Reachable-IsSound r)
  Reachable-IsSound (refreshed {c} w r) = fetch_locked-IsSound c w (Reachable-IsSound r)
