-- ===== src/Issuer/Build/Ready.antt =====
-- What New of issuer/issuer.go builds.
use internal_jwt_handling.Base.{
  String, List, [], ◌∷◌, Option, some, ◌≡◌, ◌≢◌, arith, eq_iff, Option-cases, inl, inr, subst,
}
use internal_jwt_handling.Base.Int.{pos, ◌<ℤ◌, leb_ℤ}
use internal_jwt_handling.Errors.{sentinel, issuer, IssuerError, non_positive_ttl}
use internal_jwt_handling.Time.{Duration}
use internal_jwt_handling.Result.{Result, ok, ◌>>=◌, ◌>>◌, reject, require_some}
use internal_jwt_handling.Io.{Clock}
use internal_jwt_handling.Issuer.Model.{KeyProvider, Settings, Issuer}
use internal_jwt_handling.Issuer.Build.{IssuerOption, default_ttl, with_ttl, apply_options, new}

-- An issuer as New leaves it: its lifetime is positive and its clock is the one that was set.
pub record IsReady {W Private Public : Type 0} (i : Issuer W Private Public) : Type 0 where
  pub ttl : pos 0 <ℤ i.ttl
  pub set : i.now ≡ some i.clock

-- The end of New, from the settings on.
abbrev finish :
    {W Private Public : Type 0} → Settings W Private Public → Result (Issuer W Private Public)
finish s = do
  reject (leb_ℤ s.ttl (pos 0)) (sentinel (issuer non_positive_ttl))
  clock ← require_some s.now (sentinel (issuer IssuerError.missing_clock))
  ok (record { settings = s; clock = clock })

built :
    {W Private Public : Type 0} (s : Settings W Private Public) (i : Issuer W Private Public)
    → finish s ≡ ok i
    → IsReady i
built s i h = elim (Option-cases s.now) [
  | inl missed ↦ absurd (ground arith)
  | inr (clock, set) ↦
      let e : record { settings = s; clock = clock } ≡ i = ground arith in
      subst IsReady e (record { ttl = ground arith; set = set })
]

module _ {W Private Public : Type 0} (system_clock : Clock W) where
  -- The settings that New starts from.
  abbrev defaults : String → KeyProvider W Private Public → Settings W Private Public
  defaults issuer_id keys = record {
    issuer_id = issuer_id;
    keys = keys;
    ttl = default_ttl;
    now = some system_clock;
  }

  -- Whatever the options, an issuer that is built has a positive lifetime and a clock.
  pub new-IsReady :
      (issuer_id : String) (keys : Option (KeyProvider W Private Public))
      (opts : List (IssuerOption W Private Public)) (i : Issuer W Private Public)
      → new system_clock issuer_id keys opts ≡ ok i
      → IsReady i
  unfolding new
  new-IsReady issuer_id keys opts i h = elim (Option-cases keys) [
    | inl missed ↦ absurd (ground arith)
    | inr (k, given) ↦ built (apply_options (defaults issuer_id k) opts) i (ground arith)
  ]

  -- New with a lifetime and no other option.
  pub new-with_ttl :
      (issuer_id : String) (keys : KeyProvider W Private Public) (ttl : Duration)
      (i : Issuer W Private Public)
      → new system_clock issuer_id (some keys) (with_ttl ttl ∷ []) ≡ ok i
      → (issuer_id ≢ "")
        × (pos 0 <ℤ ttl)
        × (i ≡ record {
          settings = record (defaults issuer_id keys) { ttl = ttl };
          clock = system_clock;
        })
  unfolding new with_ttl
  new-with_ttl issuer_id keys ttl i h =
      (ground (arith, eq_iff issuer_id ""), ground arith, ground arith)
