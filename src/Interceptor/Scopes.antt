-- ===== src/Interceptor/Scopes.antt =====
-- Which required scopes missingScopes of interceptor/interceptor.go reports.
use internal_jwt_handling.Base.{
  String, List, [], ◌∷◌, ◌≡◌, ◌↔◌, inl, inr, contains, contains_iff, In, All, arith, Bool-cases,
  subst, sym,
}
use internal_jwt_handling.Strings.{fields, join_space}
use internal_jwt_handling.Strings.Laws.{IsWord, fields-join_space}
use internal_jwt_handling.Interceptor.Authorize.{missing_from, missing_scopes}

missing_from-empty_iff :
    (granted required : List String)
    → (missing_from granted required ≡ []) ↔ All (λ s. In s granted) required
unfolding missing_from
missing_from-empty_iff granted [] = ground arith
missing_from-empty_iff granted (want ∷ required) =
    ground (arith, contains_iff granted want, missing_from-empty_iff granted required)

-- No scope is missing exactly when every required scope is a word of the granted text.
pub missing_scopes-empty_iff :
    (required : List String) (scope : String)
    → (missing_scopes required scope ≡ []) ↔ All (λ s. In s (fields scope)) required
unfolding missing_scopes
missing_scopes-empty_iff required scope = missing_from-empty_iff (fields scope) required

module _ (granted required : List String) (want s : String) where
  -- A scope that is granted is not reported.
  skip_granted :
      In want granted
      → In s (missing_from granted required) ↔ (In s required × ¬ In s granted)
      → In s (missing_from granted required) ↔ (In s (want ∷ required) × ¬ In s granted)
  skip_granted had ih = (
    λ m. (inr (ih.0 m).0, (ih.0 m).1),
    λ p. elim p.0 [
      | inl e ↦ absurd (p.1 (subst (λ x. In x granted) e had))
      | inr later ↦ ih.1 (later, p.1)
    ],
  )

  -- A scope that is not granted is.
  report_missing :
      (¬ In want granted)
      → In s (missing_from granted required) ↔ (In s required × ¬ In s granted)
      → In s (want ∷ missing_from granted required) ↔ (In s (want ∷ required) × ¬ In s granted)
  report_missing lacks ih = (
    λ m. elim m [
      | inl e ↦ (inl e, subst (λ x. ¬ In x granted) e lacks)
      | inr later ↦ (inr (ih.0 later).0, (ih.0 later).1)
    ],
    λ p. elim p.0 [ inl e ↦ inl e | inr later ↦ inr (ih.1 (later, p.1)) ],
  )

In-missing_from_iff :
    (granted required : List String) (s : String)
    → In s (missing_from granted required) ↔ (In s required × ¬ In s granted)
unfolding missing_from
In-missing_from_iff granted [] s = (λ h. absurd h, λ h. h.0)
In-missing_from_iff granted (want ∷ required) s = elim (Bool-cases (contains granted want)) [
  | inl had ↦ rw had (
      skip_granted granted required want s ((contains_iff granted want).0 had)
        (In-missing_from_iff granted required s))
  | inr lacks ↦
      let not_in : ¬ In want granted = λ m. cc (lacks, (contains_iff granted want).1 m) in
      rw lacks
        (report_missing granted required want s not_in (In-missing_from_iff granted required s))
]

-- Against scopes that are granted as words joined by single spaces, the scopes reported are those
-- required and not granted.
pub missing_scopes-join_space_iff :
    (granted required : List String) (s : String)
    → All IsWord granted
    → In s (missing_scopes required (join_space granted)) ↔ (In s required × ¬ In s granted)
unfolding missing_scopes
missing_scopes-join_space_iff granted required s h =
    subst (λ g. In s (missing_from g required) ↔ (In s required × ¬ In s granted))
      (sym (fields-join_space granted h)) (In-missing_from_iff granted required s)
