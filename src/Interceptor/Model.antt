-- ===== src/Interceptor/Model.antt =====
-- The types of interceptor/interceptor.go. connect and the policy table of protoc-gen-authz-go are
-- outside the repository: a header and a table are what the source reads of them.
use internal_jwt_handling.Base.{ℕ, String, List, Option, ◌==◌, if◌then◌else◌}
use internal_jwt_handling.Errors.{Error}
use internal_jwt_handling.Io.{Io}
use internal_jwt_handling.Claims.{Claims}

-- authz.Level; a number that names no level is `other`.
pub data Level : Type 0 where
  unspecified public authenticated internal : Level
  other : ℕ → Level

pub record Policy : Type 0 where
  pub level : Level
  pub required_scopes : List String
  pub token_uses : List String

-- authz.Policies: `len` and `Lookup`.
pub record Policies : Type 0 where
  pub count : ℕ
  pub lookup : String → Option Policy

-- `header.Get`
abbrev pub Header : Type 0
Header = String → String

pub data Code : Type 0 where
  unknown unauthenticated permission_denied unavailable internal : Code

-- A *connect.Error: its code and message go to the client, its cause does not.
pub record ConnectError : Type 0 where
  pub code : Code
  pub message : String
  pub cause : Error

-- TokenVerifier
abbrev pub TokenVerifier : Type 0 → Type 0
TokenVerifier W = String → Io W Claims

-- errorReporter
abbrev pub Reporter : Type 0 → Type 0
Reporter W = String → Error → W → W

-- A Go map from procedures to lists, as reading it goes: a missing key reads as the empty list.
pub record Options (W : Type 0) : Type 0 where
  pub reporter : Option (Reporter W)
  pub authenticated_token_uses : List String
  pub token_uses : String → List String

pub record Interceptor (W : Type 0) : Type 0 where
  pub verifier : TokenVerifier W
  pub policies : Policies
  pub options : Options W
  pub open options use *

-- codeMessages; a code that the map does not name reads as the empty text.
unfoldable pub code_message : Code → String
code_message unauthenticated = "unauthenticated"
code_message permission_denied = "permission denied"
code_message unavailable = "authentication unavailable"
code_message Code.internal = "internal error"
code_message unknown = ""

abbrev pub OptionOf : Type 0 → Type 0
OptionOf W = Options W → Options W

module _ {W : Type 0} where
  -- WithErrorReporter
  unfoldable pub with_error_reporter : Option (Reporter W) → OptionOf W
  with_error_reporter reporter o = record o { reporter = reporter }

  -- WithAuthenticatedTokenUses
  unfoldable pub with_authenticated_token_uses : List String → OptionOf W
  with_authenticated_token_uses uses o = record o { authenticated_token_uses = uses }

  -- WithTokenUses
  unfoldable pub with_token_uses : String → List String → OptionOf W
  with_token_uses procedure uses o = record o {
    token_uses = λ p. if p == procedure then uses else o.token_uses p;
  }
