-- ===== src/Verifier/Build.antt =====
-- verifier/verifier.go: the verifier, its options and New; and verifier/context.go's constructor.
-- The parser is golang-jwt's and the key resolver an interface: both are parameters.
use internal_jwt_handling.Base.{String, List, [], ◌∷◌, Option, none, some, ◌*◌, Bool, true}
use internal_jwt_handling.Base.Int.{ltb_ℤ, pos}
use internal_jwt_handling.Errors.{
  sentinel, verifier, VerifierError, missing_key_resolver, negative_leeway,
}
use internal_jwt_handling.Time.{Duration, second}
use internal_jwt_handling.Result.{Result, ok, ◌>>=◌, ◌>>◌, reject, require, require_some}
use internal_jwt_handling.Io.{Io, Clock}
use internal_jwt_handling.Jwk.{algorithm}
use internal_jwt_handling.Claims.{Claims}

-- A value of the `map[string]any` that is a token's header.
pub data HeaderValue : Type 0 where
  text : String → HeaderValue
  other : HeaderValue

abbrev pub Header : Type 0
Header = String → Option HeaderValue

-- `token.Header[name].(string)`
abbrev pub as_text : Option HeaderValue → Option String
as_text (some (text s)) = some s
as_text (some other) = none
as_text none = none

-- The KeyResolver interface; the key may be nil.
abbrev pub KeyResolver : Type 0 → Type 0 → Type 0
KeyResolver W Public = String → Io W (Option Public)

-- What New asks of jwt.NewParser.
pub record ParserOptions (W : Type 0) : Type 0 where
  pub valid_methods : List String
  pub issuer : String
  pub expiration_required : Bool
  pub verify_issued_at : Bool
  pub leeway : Duration
  pub time_func : Clock W

-- `parser.ParseWithClaims`: options, token and key function to the claims.
abbrev pub Parser : Type 0 → Type 0 → Type 0
Parser W Public = ParserOptions W → String → (Header → Io W Public) → Io W Claims

-- The fields of Verifier that options adjust; `parser` is made from them afterwards.
pub record Settings (W Public : Type 0) : Type 0 where
  pub issuer_id : String
  pub audience : String
  pub keys : KeyResolver W Public
  pub leeway : Duration
  pub now : Option (Clock W)

pub record Verifier (W Public : Type 0) : Type 0 where
  pub settings : Settings W Public
  pub open settings use *
  pub parser : ParserOptions W

abbrev pub VerifierOption : Type 0 → Type 0 → Type 0
VerifierOption W Public = Settings W Public → Settings W Public

abbrev pub default_leeway : Duration
default_leeway = pos (30 * second)

abbrev pub token_type_jwt : String
token_type_jwt = "JWT"

module _ {W Public : Type 0} where
  -- WithLeeway
  unfoldable pub with_leeway : Duration → VerifierOption W Public
  with_leeway d v = record v { leeway = d }

  -- WithClock
  unfoldable pub with_clock : Option (Clock W) → VerifierOption W Public
  with_clock now v = record v { now = now }

  -- `for _, opt := range opts { opt(verifier) }`
  unfoldable pub apply_options :
      Settings W Public → List (VerifierOption W Public) → Settings W Public
  apply_options v [] = v
  apply_options v (opt ∷ opts) = apply_options (opt v) opts

  abbrev pub parser_options : Settings W Public → Clock W → ParserOptions W
  parser_options v now = record {
    valid_methods = algorithm ∷ [];
    issuer = v.issuer_id;
    expiration_required = true;
    verify_issued_at = true;
    leeway = v.leeway;
    time_func = now;
  }

  -- newVerifierFor; `system_clock` is time.Now
  unfoldable pub new_verifier_for :
      Clock W
      → String
      → String
      → Option (KeyResolver W Public)
      → List (VerifierOption W Public)
      → Result (Verifier W Public)
  unfolding apply_options
  new_verifier_for system_clock issuer_id audience keys opts = do
    require issuer_id (sentinel (verifier VerifierError.missing_issuer_id))
    keys ← require_some keys (sentinel (verifier missing_key_resolver))
    let v =
        apply_options
          (record {
            issuer_id = issuer_id;
            audience = audience;
            keys = keys;
            leeway = default_leeway;
            now = some system_clock;
          })
          opts
    reject (ltb_ℤ v.leeway (pos 0)) (sentinel (verifier negative_leeway))
    now ← require_some v.now (sentinel (verifier VerifierError.missing_clock))
    ok (record { settings = v; parser = parser_options v now })

  -- New
  unfoldable pub new :
      Clock W
      → String
      → String
      → Option (KeyResolver W Public)
      → List (VerifierOption W Public)
      → Result (Verifier W Public)
  unfolding new_verifier_for
  new system_clock issuer_id audience keys opts = do
    require issuer_id (sentinel (verifier VerifierError.missing_issuer_id))
    require audience (sentinel (verifier VerifierError.missing_audience))
    new_verifier_for system_clock issuer_id audience keys opts

  -- NewContextVerifier; a ContextVerifier is its one field
  unfoldable pub new_context_verifier :
      Clock W
      → String
      → Option (KeyResolver W Public)
      → List (VerifierOption W Public)
      → Result (Verifier W Public)
  unfolding new_verifier_for
  new_context_verifier system_clock issuer_id keys opts =
      new_verifier_for system_clock issuer_id "" keys opts
