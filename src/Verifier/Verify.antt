-- ===== src/Verifier/Verify.antt =====
-- verifier/verifier.go and verifier/context.go: verifying a token.
use internal_jwt_handling.Base.{String, Option, none, some, not, if◌then◌else◌}
use internal_jwt_handling.Errors.{
  Error, sentinel, detail, wrap, verifier, VerifierError, missing_token, invalid_token,
  unexpected_token_type, key_resolution, errors_is, is_unknown_key_id, is_key_resolution,
}
use internal_jwt_handling.Strings.{equal_fold}
use internal_jwt_handling.Result.{Result, err, reject, require, require_some}
use internal_jwt_handling.Io.{Io, ◌>>=◌, ◌>>◌, lift, map_error}
use internal_jwt_handling.Claims.{Claims}
use internal_jwt_handling.Verifier.Build.{
  Header, as_text, KeyResolver, Parser, Verifier, token_type_jwt,
}
use internal_jwt_handling.Verifier.ClaimChecks.{validate_claims}

-- validateTokenType, of the value under "typ"
unfoldable pub validate_token_type : Option String → Result (Unit {0})
validate_token_type none = err (detail (sentinel (verifier unexpected_token_type)) "missing")
validate_token_type (some token_type) =
    reject (not (equal_fold token_type token_type_jwt))
      (detail (sentinel (verifier unexpected_token_type)) token_type)

-- What keyFunc makes of the resolver's error.
unfoldable pub resolver_error : Error → Error
resolver_error e =
    if errors_is e is_unknown_key_id then e else wrap (sentinel (verifier key_resolution)) e

-- What `verify` makes of the parser's error.
unfoldable pub parser_error : Error → Error
parser_error e =
    if errors_is e is_key_resolution then e else wrap (sentinel (verifier invalid_token)) e

module _ {W Public : Type 0} where
  -- keyFunc
  unfoldable pub key_func : KeyResolver W Public → Header → Io W Public
  unfolding validate_token_type resolver_error
  key_func keys header = do
    lift (validate_token_type (as_text (header "typ")))
    key_id ←
        lift
          (require_some (as_text (header "kid")) (sentinel (verifier VerifierError.missing_key_id)))
    lift (require key_id (sentinel (verifier VerifierError.missing_key_id)))
    key ← map_error resolver_error (keys key_id)
    lift (require_some key (detail (sentinel (verifier key_resolution)) key_id))

module _ {W Public : Type 0} (parse : Parser W Public) where
  -- The method `verify`
  unfoldable pub verify_for : Verifier W Public → String → String → Io W Claims
  unfolding parser_error
  verify_for v token audience = do
    lift (require token (sentinel (verifier missing_token)))
    claims ← map_error parser_error (parse v.parser token (key_func v.keys))
    lift (validate_claims audience claims)

  -- Verify
  unfoldable pub verify : Verifier W Public → String → Io W Claims
  unfolding verify_for
  verify v token = verify_for v token v.audience

  -- Verify of ContextVerifier, for the service that presents the token
  unfoldable pub verify_context : Verifier W Public → String → String → Io W Claims
  unfolding verify_for
  verify_context v token presenter = do
    lift (require presenter (sentinel (verifier VerifierError.missing_audience)))
    verify_for v token presenter
