-- ===== src/Jwtgen/Generate.antt =====
-- jwtgen/jwtgen.go: the method Generate and the function Generate; and cmd/jwtgen/main.go.
use internal_jwt_handling.Base.{
  ℕ, String, [], ◌∷◌, Option, none, some, ◌==◌, ◌&&◌, not, if◌then◌else◌,
}
use internal_jwt_handling.Time.{Duration, is_zero_duration}
use internal_jwt_handling.Errors.{Error, origin_sub_forbidden, txn_forbidden}
use internal_jwt_handling.Result.{Result, ok, err, reject}
use internal_jwt_handling.Io.{Io, Clock, ◌>>=◌, ◌>>◌, lift}
use internal_jwt_handling.Jwk.{Ecdsa}
use internal_jwt_handling.Claims.{token_use_service, token_use_tenant_access}
use internal_jwt_handling.Issuer.Model.{Outside}
use internal_jwt_handling.Issuer.Build
use internal_jwt_handling.Issuer.Build.{with_ttl}
use internal_jwt_handling.Issuer.Publish.{issuer_jwks}
use internal_jwt_handling.Jwtgen.Generator.{
  Config, Output, Generator, default_key_id, default_ttl, fault, key_provider, new_generator,
}
use internal_jwt_handling.Jwtgen.Issue.{issue}

-- The lifetime that the method Generate settles on.
abbrev pub ttl_of : Config → Duration
ttl_of config = if is_zero_duration config.ttl then default_ttl else config.ttl

module _ {W Private Public : Type 0} (out : Outside W Private) (system_clock : Clock W)
    (ecdsa : Ecdsa Public) (public_of : Private → Public) where
  -- The method Generate
  unfoldable pub generate : Generator Private → Config → Io W Output
  unfolding with_ttl
  generate g config = do
    lift (
        reject (not (config.origin_sub == "") && not (config.token_use == token_use_service))
          (fault origin_sub_forbidden))
    lift (
        reject (not (config.txn == "") && not (config.token_use == token_use_service))
          (fault txn_forbidden))
    iss ← lift (
        Build.new {Public = Public} system_clock config.issuer (some (key_provider g))
          (with_ttl (ttl_of config) ∷ []))
    issued ← issue out system_clock iss config (ttl_of config)
    jwks ← issuer_jwks ecdsa public_of iss
    lift (ok (record { token = issued.token; claims = issued.claims; jwks = jwks }))

  -- The function Generate; `generate_key` is ecdsa.GenerateKey on P-256
  unfoldable pub generate_once : Io W Private → Config → Io W Output
  unfolding generate
  generate_once generate_key config = do
    generator ← new_generator ecdsa public_of generate_key config.key_id
    generate generator config

-- The flags of the command, parsed by the package flag.
pub record Flags : Type 0 where
  pub issuer : String
  pub audience : String
  pub token_use : String
  pub tenant_public_id : String
  pub event_public_id : String
  pub scope : String
  pub origin_sub : String
  pub subject : String
  pub txn : String
  pub kid : String
  pub ttl : Duration

-- The flags of a command line that sets none.
abbrev pub default_flags : Flags
default_flags = record {
  issuer = "service-gateway";
  audience = "";
  token_use = token_use_tenant_access;
  tenant_public_id = "";
  event_public_id = "";
  scope = "";
  origin_sub = "";
  subject = "";
  txn = "";
  kid = default_key_id;
  ttl = default_ttl;
}

abbrev pub config_of : Flags → Config
config_of flags = record {
  issuer = flags.issuer;
  audience = flags.audience;
  token_use = flags.token_use;
  tenant_public_id = flags.tenant_public_id;
  event_public_id = flags.event_public_id;
  scope = flags.scope;
  origin_sub = flags.origin_sub;
  txn = flags.txn;
  subject = flags.subject;
  key_id = flags.kid;
  ttl = flags.ttl;
}

-- The command's standard output and standard error, as far as `main` calls them.
pub record Console (W : Type 0) : Type 0 where
  pub encode : Output → W → Option Error × W
  pub log_error : String → Error → W → W

module _ {W : Type 0} (console : Console W) where
  abbrev finish : Option Error × W → ℕ × W
  finish (none, w) = (0, w)
  finish (some e, w) = (1, console.log_error "encode output failed" e w)

  -- What `main` does with the outcome of Generate: the exit code.
  abbrev pub conclude : Result Output × W → ℕ × W
  conclude (err e, w) = (1, console.log_error "generate token failed" e w)
  conclude (ok output, w) = finish (console.encode output w)

  module _ {Private Public : Type 0} (out : Outside W Private) (system_clock : Clock W)
      (ecdsa : Ecdsa Public) (public_of : Private → Public) (generate_key : Io W Private) where
    -- main, once the flags are parsed
    unfoldable pub main : Flags → W → ℕ × W
    unfolding generate_once
    main flags w =
        conclude (generate_once out system_clock ecdsa public_of generate_key (config_of flags) w)
