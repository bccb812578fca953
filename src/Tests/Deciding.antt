-- ===== src/Tests/Deciding.antt =====
-- The interceptor package at concrete inputs.
use internal_jwt_handling.Base.{
  ℕ, ◌+◌, ◌≡◌, All, ◌↔◌, refl, [], ◌∷◌, none, some, eq_iff, arith, In, ◌==◌, if◌then◌else◌,
}
use internal_jwt_handling.Errors.{sentinel, detail, interceptor, unknown_procedure}
use internal_jwt_handling.Result.{ok}
use internal_jwt_handling.Strings.{fields, join_space, equal_fold, cut_space, contains_space}
use internal_jwt_handling.Strings.Laws.{IsWord}
use internal_jwt_handling.Context.{background, context_with_claims}
use internal_jwt_handling.Verifier.Bearer.{bearer_token}
use internal_jwt_handling.Verifier.Failures.{Unresolved}
use internal_jwt_handling.Interceptor.Model.{
  authenticated, Policy, Header, Code, unauthenticated, unavailable, permission_denied, Interceptor,
  ConnectError, code_message,
}
use internal_jwt_handling.Interceptor.Authorize.{
  accepted_token_uses, default_token_uses, verify_header, judge, refuse_token, missing_scopes,
  check, Checked, allowed, refused, authorize, report,
}
use internal_jwt_handling.Interceptor.Scopes.{missing_scopes-join_space_iff}
use internal_jwt_handling.Interceptor.Decisions.{Permits, authorize-Permits_iff}
use internal_jwt_handling.Interceptor.Refusals.{
  Refuses, IsBad, Lacks, code_of, authorize-Refuses, check-code_iff,
}
use internal_jwt_handling.Tests.Fixtures.{tenant_claims}

abbrev policy : Policy
policy = record { level = authenticated; required_scopes = "a" ∷ []; token_uses = [] }

-- The table names "Get"; every token carries the tenant claims; a report takes one step.
abbrev access : Interceptor ℕ
access = record {
  verifier = λ token w. (ok tenant_claims, w);
  policies = record { count = 1; lookup = λ p. if p == "Get" then some policy else none };
  options = record {
    reporter = some (λ procedure e w. w + 1);
    authenticated_token_uses = [];
    token_uses = λ p. [];
  };
}

abbrev header : Header
header name = "Bearer abc"

decisions : Unit {0}
unfolding authorize check accepted_token_uses default_token_uses verify_header judge refuse_token
    missing_scopes report code_message bearer_token equal_fold cut_space contains_space fields
    context_with_claims
decisions = tt

get_allowed :
    authorize access background "Get" header 3
    ≡ (allowed (context_with_claims background tenant_claims), 3)
unfolding decisions
get_allowed = refl

accepted : accepted_token_uses access policy "Get" ≡ ok ("tenant_access" ∷ [])
unfolding decisions
accepted = refl

check_passed : check access "Get" policy header 3 ≡ (Checked.passed tenant_claims, 3)
unfolding decisions
check_passed = refl

-- A procedure that the table does not name.
abbrev put_error : ConnectError
put_error = record {
  code = Code.internal;
  message = "internal error";
  cause = detail (sentinel (interceptor unknown_procedure)) "Put";
}

put_refused : authorize access background "Put" header 3 ≡ (refused put_error, 4)
unfolding decisions
put_refused = refl

authorize-Permits_iff_example :
    Permits access background "Get" header 3 3 (context_with_claims background tenant_claims)
authorize-Permits_iff_example =
    (authorize-Permits_iff access background "Get" header 3 3
        (context_with_claims background tenant_claims)).0
      get_allowed

authorize-Refuses_example :
    (put_error.message ≡ code_message put_error.code)
    × ((v : ℕ) × (4 ≡ report access "Put" put_error.cause v)
        × Refuses access "Put" header 3 put_error v)
authorize-Refuses_example =
    authorize-Refuses access background "Put" header 3 4 put_error put_refused

check-code_iff_example :
    ((code_of (check access "Get" policy header 3).0 ≡ some unavailable)
      ↔ Unresolved (verify_header access header 3).0)
    × ((code_of (check access "Get" policy header 3).0 ≡ some unauthenticated)
        ↔ IsBad ("tenant_access" ∷ []) (verify_header access header 3).0)
    × ((code_of (check access "Get" policy header 3).0 ≡ some permission_denied)
        ↔ Lacks ("tenant_access" ∷ []) policy (verify_header access header 3).0)
check-code_iff_example = check-code_iff access "Get" policy header 3 ("tenant_access" ∷ []) accepted

words : All IsWord ("a" ∷ "b" ∷ [])
unfolding decisions
words = ((ground (arith, eq_iff "a" ""), refl), ((ground (arith, eq_iff "b" ""), refl), tt))

missing_scopes-join_space_iff_example :
    In "c" (missing_scopes ("a" ∷ "c" ∷ []) (join_space ("a" ∷ "b" ∷ [])))
    ↔ (In "c" ("a" ∷ "c" ∷ []) × ¬ In "c" ("a" ∷ "b" ∷ []))
missing_scopes-join_space_iff_example =
    missing_scopes-join_space_iff ("a" ∷ "b" ∷ []) ("a" ∷ "c" ∷ []) "c" words
