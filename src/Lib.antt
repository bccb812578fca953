-- ===== src/Lib.antt =====
-- The internal JWTs of the services: what they are, who issues them, and who accepts them.
--
-- The gateway (issuer/) converts an external token into an internal one, and services have the
-- one they hold re-issued when they call each other. A callee's interceptor (interceptor/) takes
-- the bearer token of a call, has a verifier (verifier/) check it, and lets the call through or
-- answers with an error. The verifier gets its keys from a cache (jwks/) of the set that the
-- issuer publishes as JWKs (jwk.go). All of them share the claim set and its binding rule
-- (claims.go). For tests, jwtgen/ and its command cmd/jwtgen mint tokens with the issuer under a
-- key of their own.
--
-- Files:
-- Base, Base/*: the library names in use, and small additions: Boolean tests, lists, integers.
-- Errors: the sentinel errors of every package, the error values built from them, errors.Is.
-- Result, Io: Go's results with an error, and calls that reach outside, as do blocks.
-- Time, Strings, Base64: what the source uses of time, strings, unicode and encoding/base64.
-- Claims: claims.go (Claims, ValidateBinding). Jwk: jwk.go (NewJWK, PublicKey, coordinate,
--   CurveName), with Jwk/RoundTrip. Context: context.go. Wire: the JSON members of the struct
--   tags, with Wire/Claims (reading Claims), Wire/Dates (its dates once
--   written), and the theorems in Wire/Members, RoundTrip.
-- Verifier/Build: New, newVerifierFor, NewContextVerifier and the options.
-- Verifier/ClaimChecks: matchAudience and the validate functions of verifier.go and claims.go.
-- Verifier/Verify: keyFunc and the Verify methods. Verifier/Bearer: BearerToken.
-- Verifier/WellFormed, Outcomes, Failures, Trust: theorems on these.
-- Issuer/Model, Build: the types, the options and New, with Build/Ready. Issuer/Validate: the
--   input checks, with Validate/Accepted.
-- Issuer/Derive: the claim set of each kind of token, with the theorems in Derive/*.
-- Issuer/SignedClaims, Issue: the signed form, the signer's sign, and the Issue methods;
--   Issue/Signing, Issue/Derived.
-- Issuer/Chain: hops of re-issuing. Issuer/Publish: the signer's jwks and JWKS, and in
--   Publish/Readback what the cache reads of them.
-- Issuer/KeyFiles: the FileKeyProvider of issuer/keys.go, with the theorems in KeyFiles/*.
-- Jwks/Model, Fetch, Lookup: jwks/cache.go: the cache, its New, fetching, and Key and Refresh.
-- Jwks/Documents, Refreshing, Healthy, Serving, Answers, Resting, Reachable: theorems on these.
-- Interceptor/Model, Authorize: interceptor/interceptor.go. Interceptor/Scopes, Decisions,
--   Refusals: theorems on it.
-- Jwtgen/Unchecked, Generator, Issue, Generate: jwtgen/claims.go, jwtgen.go, txn.go, and `main`
--   of cmd/jwtgen/main.go. Jwtgen/Signing, Carries, Minted, Generated: theorems on
--   these.
-- Agreement, Agreement/*: the packages together: what is issued is verified (Accepted, Issued,
--   with Times), with the cache between the two (Served, Rotated, Rooted), behind the
--   interceptor (Allowed), and for the output of jwtgen (Minted).
-- Tests/*: runs at concrete inputs, and each result below applied to one.
--
-- How code becomes definitions. A function is named as in the source, in small letters with
-- underscores. A call that reaches outside takes a state W of the outside and returns the next
-- one, so the order of such calls is kept; Go's context is part of W. A time is its nanoseconds
-- since Go's zero time, a duration an integer of nanoseconds, and the difference of two times is
-- held to int64 as in time.Sub; a *jwt.NumericDate is an optional time. A string is a list of
-- code points, so texts that are not UTF-8 are left out. An error keeps its sentinels and what
-- it quotes, not its text. The fields of Verifier and Issuer that New fills in after the options
-- are kept apart from those that options adjust. A mutex makes each method of the cache and of
-- the key provider one step.
--
-- Parameters. The parser of golang-jwt, google/uuid, signing, crypto/ecdsa, net/http, net/url,
-- encoding/json on a JWKS, encoding/pem, crypto/x509, ecdsa.GenerateKey, the file system,
-- connect, the policy table, the clock, the parsing of flags, the output of a command, and the
-- interfaces KeyResolver, KeyProvider and TokenVerifier are arguments of the definitions. Where
-- a theorem needs something of them it is a hypothesis: that the parser calls the key function
-- first and checks what its options name, iat only with WithIssuedAt (Verifier/Trust), that a UUID is not empty
-- (Issuer/Derive/Internal), that a P-256 key is parsed back from its uncompressed encoding
-- (Jwk/RoundTrip) and has one (Issuer/KeyFiles/Publishing), that a NumericDate drops less than a
-- second (Issuer/Derive/Lifetime), that a request is sent once per send (Jwks/Refreshing), that
-- the registered claims are read from their own members (Wire/RoundTrip), and that golang-jwt
-- reads a token that it has signed, and cuts no more of a NumericDate when it writes one
-- (Agreement).
--
-- Loops are structural recursion on the list that they run over, the retries of a refresh on the
-- waits that are left, so no fuel is needed.
--
-- Not modelled: log lines, closing and draining a response, the getters of the claim structs
-- that golang-jwt may call, and the copying of a key list before it is handed out, which only
-- matters to a caller that writes to it.
pub mod Agreement
pub mod Base
pub mod Errors
pub mod Result
pub mod Time
pub mod Strings
pub mod Base64
pub mod Jwk
pub mod Claims
pub mod Io
pub mod Verifier
pub mod Wire
pub mod Issuer
pub mod Jwks
pub mod Context
pub mod Interceptor
pub mod Jwtgen
mod Tests
