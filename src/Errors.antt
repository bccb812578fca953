-- ===== src/Errors.antt =====
-- The sentinel errors of every package, and Go's error values with `errors.Is`.
-- A sentinel is named after its variable, less the `Err`; each package has a type of its own, since
-- two packages may declare variables of one name that `errors.Is` tells apart.
-- The texts of the messages are left out; what they quote (a claim's name, a kid) is kept.
use internal_jwt_handling.Base.{String, Bool, true, false, ◌||◌}

-- claims.go, jwk.go and keys.go, the root package.
pub data RootError : Type 0 where
  unsupported_token_use missing_tenant_public_id missing_event_public_id : RootError
  forbidden_event_public_id registration_binding service_event_without_tenant : RootError
  missing_key_id missing_key unsupported_curve unexpected_key_length encode_key : RootError
  unsupported_key_type unsupported_algorithm unsupported_key_use decode_coordinate : RootError
  invalid_public_key unknown_key_id : RootError

pub data VerifierError : Type 0 where
  missing_issuer_id missing_audience missing_key_resolver negative_leeway : VerifierError
  missing_clock missing_token invalid_token unexpected_token_type missing_key_id : VerifierError
  key_resolution audience_count missing_claim forbidden_claim client_id_mismatch : VerifierError
  missing_authorization malformed_authorization : VerifierError

pub data IssuerError : Type 0 where
  missing_issuer_id missing_key_provider non_positive_ttl missing_clock missing_audience :
      IssuerError
  audience_count context_missing_expiry context_expired context_audience_mismatch : IssuerError
  missing_subject missing_client_id missing_scope missing_source_jti : IssuerError
  missing_source_expiry source_expired external_service missing_caller_service : IssuerError
  context_missing_txn context_missing_jti context_missing_subject : IssuerError
  context_missing_scope context_missing_source_jti context_not_user_origin : IssuerError
  machine_context_not_service machine_context_carries_origin : IssuerError
  machine_context_carries_binding : IssuerError
  key_provider missing_signing_key_id missing_signing_key duplicate_key_id : IssuerError
  describe_key generate_id sign : IssuerError
  missing_published_key_id missing_key_file_path read_key_file no_pem_block : IssuerError
  unsupported_pem_block parse_key unsupported_key_type : IssuerError

pub data JwksError : Type 0 where
  missing_url invalid_url failure_cooldown fetch unexpected_status : JwksError
  document_too_large decode_document invalid_key duplicate_key_id : JwksError

pub data JwtgenError : Type 0 where
  generate_key origin_sub_forbidden txn_forbidden missing_signing_key : JwtgenError

pub data InterceptorError : Type 0 where
  missing_verifier missing_policies unauthenticated unavailable token_use : InterceptorError
  missing_scope unknown_level unknown_procedure : InterceptorError

-- The sentinels of golang-jwt that the source names.
pub data JwtError : Type 0 where
  token_invalid_claims token_required_claim_missing token_invalid_audience : JwtError

pub data Sentinel : Type 0 where
  root : RootError → Sentinel
  verifier : VerifierError → Sentinel
  issuer : IssuerError → Sentinel
  jwks : JwksError → Sentinel
  jwtgen : JwtgenError → Sentinel
  interceptor : InterceptorError → Sentinel
  jwt : JwtError → Sentinel

-- A non-nil error: a sentinel, one of `fmt.Errorf` with one `%w` and a quoted text, one with two
-- `%w`, or an error that code outside the repository made.
pub data Error : Type 0 where
  sentinel : Sentinel → Error
  detail : Error → String → Error
  wrap : Error → Error → Error
  foreign : String → Error

-- `errors.Is(err, target)`; the target is given by the test that it is the sentinel in hand.
abbrev pub errors_is : Error → (Sentinel → Bool) → Bool
errors_is (sentinel s) target = target s
errors_is (detail e _) target = errors_is e target
errors_is (wrap a b) target = errors_is a target || errors_is b target
errors_is (foreign _) target = false

abbrev pub is_unknown_key_id : Sentinel → Bool
is_unknown_key_id (root unknown_key_id) = true
is_unknown_key_id _ = false

abbrev pub is_key_resolution : Sentinel → Bool
is_key_resolution (verifier key_resolution) = true
is_key_resolution _ = false
