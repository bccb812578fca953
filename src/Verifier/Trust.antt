-- ===== src/Verifier/Trust.antt =====
-- What an accepted token has gone through, from the documented behaviour of golang-jwt's parser:
-- `New` of verifier/verifier.go hands the parser the options that make it check all of it.
use internal_jwt_handling.Base.{
  String, List, Option, none, some, true, ◌≡◌, refl, ◌≢◌, ◌≤◌, ◌<◌, arith, In, Option-cases, inl,
  inr, subst, sym, All, eq_iff, ap, ◌∙◌, [], ◌∷◌,
}
use internal_jwt_handling.Base.Int.{◌≤ℤ◌, pos, ltb_ℤ}
use internal_jwt_handling.Errors.{sentinel, verifier, negative_leeway, VerifierError}
use internal_jwt_handling.Result.{Result, ok, ◌>>=◌, ◌>>◌, reject, require_some}
use internal_jwt_handling.Io.{Io, Clock}
use internal_jwt_handling.Time.{Time, Duration, add}
use internal_jwt_handling.Claims.{Claims}
use internal_jwt_handling.Jwk.{algorithm}
use internal_jwt_handling.Verifier.WellFormed.{IsInternal}
use internal_jwt_handling.Verifier.Build.{
  Header, KeyResolver, ParserOptions, Parser, Settings, Verifier, VerifierOption, apply_options,
  parser_options, default_leeway, new_verifier_for, with_leeway, with_clock,
}
use internal_jwt_handling.Verifier.Verify.{key_func, verify_for}
use internal_jwt_handling.Verifier.Outcomes.{Offers, key_func-Offers_iff, verify_for-eq-ok_iff}

-- The times of a claim set are in order at a time, with some leeway.
pub record IsCurrent (leeway : Duration) (t : Time) (c : Claims) : Type 0 where
  pub not_expired : (exp : Time) → c.expires_at ≡ some exp → t < add exp leeway
  pub begun : (nbf : Time) → c.not_before ≡ some nbf → nbf ≤ add t leeway
  pub issued : (iat : Time) → c.issued_at ≡ some iat → iat ≤ add t leeway

-- The times of a claim set that the parser has checked under its options at a time: iat is one of
-- them only where WithIssuedAt was given.
pub record AreChecked {W : Type 0} (o : ParserOptions W) (t : Time) (c : Claims) : Type 0 where
  pub not_expired : (exp : Time) → c.expires_at ≡ some exp → t < add exp o.leeway
  pub begun : (nbf : Time) → c.not_before ≡ some nbf → nbf ≤ add t o.leeway
  pub issued :
      o.verify_issued_at ≡ true → (iat : Time) → c.issued_at ≡ some iat → iat ≤ add t o.leeway

checked-IsCurrent :
    {W : Type 0} (o : ParserOptions W) (t : Time) (c : Claims)
    → o.verify_issued_at ≡ true
    → AreChecked o t c
    → IsCurrent o.leeway t c
checked-IsCurrent o t c on k = record {
  not_expired = k.not_expired;
  begun = k.begun;
  issued = k.issued on;
}

-- A verifier as its constructors leave it: the options that its parser was given.
pub record IsReady {W Public : Type 0} (v : Verifier W Public) : Type 0 where
  pub leeway : pos 0 ≤ℤ v.leeway
  pub clock : Clock W
  pub set : v.now ≡ some clock
  pub es256_alone : v.parser.valid_methods ≡ "ES256" ∷ []
  pub named : v.issuer_id ≢ ""
  pub own_issuer : v.parser.issuer ≡ v.issuer_id
  pub needs_exp : v.parser.expiration_required ≡ true
  pub checks_iat : v.parser.verify_issued_at ≡ true
  pub same_leeway : v.parser.leeway ≡ v.leeway
  pub same_clock : v.parser.time_func ≡ clock

-- An option that leaves the issuer's ID alone.
abbrev pub Keeps : {W Public : Type 0} → VerifierOption W Public → Type 0
Keeps {W} {Public} opt = (s : Settings W Public) → (opt s).issuer_id ≡ s.issuer_id

pub with_leeway-Keeps :
    {W Public : Type 0} (d : Duration) → Keeps {W = W} {Public = Public} (with_leeway d)
unfolding with_leeway
with_leeway-Keeps d s = refl

pub with_clock-Keeps :
    {W Public : Type 0} (now : Option (Clock W)) → Keeps {W = W} {Public = Public} (with_clock now)
unfolding with_clock
with_clock-Keeps now s = refl

apply_options-issuer_id :
    {W Public : Type 0} (s : Settings W Public) (opts : List (VerifierOption W Public))
    → All Keeps opts
    → (apply_options s opts).issuer_id ≡ s.issuer_id
unfolding apply_options
apply_options-issuer_id s [] h = refl
apply_options-issuer_id s (opt ∷ opts) (kept, h) = apply_options-issuer_id (opt s) opts h ∙ kept s

-- The end of the constructor, from the settings on.
abbrev finish : {W Public : Type 0} → Settings W Public → Result (Verifier W Public)
finish v = do
  reject (ltb_ℤ v.leeway (pos 0)) (sentinel (verifier negative_leeway))
  now ← require_some v.now (sentinel (verifier VerifierError.missing_clock))
  ok (record { settings = v; parser = parser_options v now })

built :
    {W Public : Type 0} (s : Settings W Public) (v : Verifier W Public)
    → s.issuer_id ≢ ""
    → finish s ≡ ok v
    → IsReady v
built s v named h = elim (Option-cases s.now) [
  | inl missed ↦ absurd (ground arith)
  | inr (clock, set) ↦
      let e : record { settings = s; parser = parser_options s clock } ≡ v = ground arith in
      subst IsReady e (record {
        leeway = ground arith;
        clock = clock;
        set = set;
        es256_alone = refl;
        named = named;
        own_issuer = refl;
        needs_exp = refl;
        checks_iat = refl;
        same_leeway = refl;
        same_clock = refl;
      })
]

module _ {W Public : Type 0} where
  -- A verifier that is built with options that leave the issuer's ID alone, as WithLeeway and
  -- WithClock do, has an issuer that is not empty, a leeway that is not negative, a clock, and a
  -- parser that accepts ES256 alone, requires exp, checks iat, and has the verifier's own issuer,
  -- leeway and clock.
  pub new_verifier_for-IsReady :
      (system_clock : Clock W) (issuer_id audience : String) (keys : Option (KeyResolver W Public))
      (opts : List (VerifierOption W Public)) (v : Verifier W Public)
      → All Keeps opts
      → new_verifier_for system_clock issuer_id audience keys opts ≡ ok v
      → IsReady v
  unfolding new_verifier_for
  new_verifier_for-IsReady system_clock issuer_id audience keys opts v kept h =
      elim (Option-cases keys) [
        | inl missed ↦ absurd (ground arith)
        | inr (k, given) ↦
            let s : Settings W Public = record {
              issuer_id = issuer_id;
              audience = audience;
              keys = k;
              leeway = default_leeway;
              now = some system_clock;
            } in
            let same = apply_options-issuer_id s opts kept in
            let named : issuer_id ≢ "" = λ e. absurd (ground (arith, eq_iff issuer_id "")) in
            built (apply_options s opts) v (λ e. named (sym same ∙ e)) (ground arith)
      ]

module _ {W Public : Type 0} (signed : String → String → Public → Type 0) where
  -- What the parser has done by the time it returns claims, the key function being the first of
  -- what it calls. An empty list of methods and an empty issuer are not checked; `signed token
  -- method key` says that the token's signature by the method verifies under the key.
  pub record Parsed (o : ParserOptions W) (token : String) (find : Header → Io W Public) (w : W)
      (c : Claims) : Type 0 where
    pub header : Header
    pub key : Public
    pub method : String
    pub after : W
    pub found : find header w ≡ (ok key, after)
    pub valid_method : o.valid_methods ≢ [] → In method o.valid_methods
    pub signature : signed token method key
    pub issuer : o.issuer ≢ "" → c.issuer ≡ o.issuer
    pub expires : o.expiration_required ≡ true → c.expires_at ≢ none
    pub read_at : W
    pub checked : AreChecked o (o.time_func read_at).0 c

  -- An accepted token: an internal JWT for the audience, of the verifier's issuer, with an exp,
  -- current by the verifier's clock and leeway, and signed by ES256 under the key that the
  -- resolver has for its kid.
  pub record IsTrusted (v : Verifier W Public) (clock : Clock W) (audience token : String) (w : W)
      (c : Claims) : Type 0 where
    pub internal : IsInternal audience c
    pub issuer : c.issuer ≡ v.issuer_id
    pub expires : c.expires_at ≢ none
    pub read_at : W
    pub current : IsCurrent v.leeway (clock read_at).0 c
    pub header : Header
    pub key : Public
    pub after : W
    pub offered : Offers v.keys header w after key
    pub signature : signed token algorithm key

  module _ (parse : Parser W Public)
      (parses : (o : ParserOptions W) (token : String) (find : Header → Io W Public) (w w' : W)
          (c : Claims)
        → parse o token find w ≡ (ok c, w')
        → Parsed o token find w c) where
    -- What an accepted token of a verifier is whose parser has its options.
    pub verify_for-ready :
        (v : Verifier W Public) (ready : IsReady v) (token audience : String) (w w' : W)
        (c : Claims)
        → verify_for parse v token audience w ≡ (ok c, w')
        → IsTrusted v ready.clock audience token w c
    verify_for-ready v ready token audience w w' c h =
        let (filled, read, internal) = (verify_for-eq-ok_iff parse v token audience w w' c).0 h in
        let p : Parsed v.parser token (key_func v.keys) w c =
          parses v.parser token (key_func v.keys) w w' c read in
        let method : p.method ≡ algorithm =
          elim (subst (In p.method) ready.es256_alone
            (p.valid_method (λ e. cc (ready.es256_alone, e)))) [
              | inl same ↦ sym same
              | inr other ↦ absurd other
            ] in
        record {
          internal = internal;
          issuer = p.issuer (λ e. ready.named (sym ready.own_issuer ∙ e)) ∙ ready.own_issuer;
          expires = p.expires ready.needs_exp;
          read_at = p.read_at;
          current =
              subst (λ t. IsCurrent v.leeway t c) (ap (λ f. (f p.read_at).0) ready.same_clock)
                (subst (λ l. IsCurrent l (v.parser.time_func p.read_at).0 c) ready.same_leeway
                  (checked-IsCurrent v.parser (v.parser.time_func p.read_at).0 c ready.checks_iat
                    p.checked));
          header = p.header;
          key = p.key;
          after = p.after;
          offered = (key_func-Offers_iff v.keys p.header w p.after p.key).0 p.found;
          signature = subst (λ m. signed token m p.key) method p.signature;
        }

    -- With a parser that does what it documents, every token that a verifier from its constructor
    -- accepts, built with options that leave the issuer's ID alone, has the claims of an internal JWT
    -- for the audience, of the verifier's issuer, with an exp, current by its clock and leeway (exp,
    -- nbf and iat), and is signed by ES256 under the key that the resolver has for its kid.
    pub verify_for-IsTrusted :
        (system_clock : Clock W) (issuer_id own_audience : String)
        (keys : Option (KeyResolver W Public)) (opts : List (VerifierOption W Public))
        (v : Verifier W Public) (token audience : String) (w w' : W) (c : Claims)
        → All Keeps opts
        → new_verifier_for system_clock issuer_id own_audience keys opts ≡ ok v
        → verify_for parse v token audience w ≡ (ok c, w')
        → (clock : Clock W) × (v.now ≡ some clock) × IsTrusted v clock audience token w c
    verify_for-IsTrusted system_clock issuer_id own_audience keys opts v token audience w w' c kept
          made h =
        let ready =
          new_verifier_for-IsReady system_clock issuer_id own_audience keys opts v kept made in
        (ready.clock, ready.set, verify_for-ready v ready token audience w w' c h)
