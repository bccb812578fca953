-- ===== src/Issuer/Build.antt =====
-- issuer/issuer.go: the options and New.
pub mod Ready
use internal_jwt_handling.Base.{String, List, [], ◌∷◌, Option, some, ◌*◌}
use internal_jwt_handling.Base.Int.{leb_ℤ, pos}
use internal_jwt_handling.Errors.{
  sentinel, issuer, IssuerError, missing_key_provider, non_positive_ttl,
}
use internal_jwt_handling.Time.{Duration, second}
use internal_jwt_handling.Result.{Result, ok, ◌>>=◌, ◌>>◌, reject, require, require_some}
use internal_jwt_handling.Io.{Clock}
use internal_jwt_handling.Issuer.Model.{KeyProvider, Settings, Issuer}

abbrev pub default_ttl : Duration
default_ttl = pos (120 * second)

abbrev pub IssuerOption : Type 0 → Type 0 → Type 0 → Type 0
IssuerOption W Private Public = Settings W Private Public → Settings W Private Public

module _ {W Private Public : Type 0} where
  -- WithTTL
  unfoldable pub with_ttl : Duration → IssuerOption W Private Public
  with_ttl ttl i = record i { ttl = ttl }

  -- WithClock
  unfoldable pub with_clock : Option (Clock W) → IssuerOption W Private Public
  with_clock now i = record i { now = now }

  -- `for _, opt := range opts { opt(issuer) }`
  unfoldable pub apply_options :
      Settings W Private Public → List (IssuerOption W Private Public) → Settings W Private Public
  apply_options i [] = i
  apply_options i (opt ∷ opts) = apply_options (opt i) opts

  -- New; `system_clock` is time.Now
  unfoldable pub new :
      Clock W
      → String
      → Option (KeyProvider W Private Public)
      → List (IssuerOption W Private Public)
      → Result (Issuer W Private Public)
  unfolding apply_options
  new system_clock issuer_id keys opts = do
    require issuer_id (sentinel (issuer IssuerError.missing_issuer_id))
    keys ← require_some keys (sentinel (issuer missing_key_provider))
    let i =
        apply_options
          (record {
            issuer_id = issuer_id;
            keys = keys;
            ttl = default_ttl;
            now = some system_clock;
          })
          opts
    reject (leb_ℤ i.ttl (pos 0)) (sentinel (issuer non_positive_ttl))
    clock ← require_some i.now (sentinel (issuer IssuerError.missing_clock))
    ok (record { settings = i; clock = clock })
