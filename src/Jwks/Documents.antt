-- ===== src/Jwks/Documents.antt =====
-- Which documents parseKeys of jwks/cache.go reads, and into which keys.
use internal_jwt_handling.Base.{
  String, List, [], ◌∷◌, ◌++◌, none, some, ◌≡◌, refl, sym, subst, ◌∙◌, ◌≢◌, ◌↔◌, inl, inr, eq_iff,
  eq_refl, All, arith, Option-cases, In,
}
use mathlib.Core.List.{append-nil, append_assoc}
use internal_jwt_handling.Result.{ok}
use internal_jwt_handling.Result.Inversion.{result_cases}
use internal_jwt_handling.Jwk.{Jwk, Ecdsa, public_key}
use internal_jwt_handling.Jwks.Model.{KeyMap, lookup}
use internal_jwt_handling.Jwks.Fetch.{parse_from}

module _ {Public : Type 0} where
  -- Looking a kid up in a map that another follows.
  pub lookup-append :
      (kid : String) (m n : KeyMap Public)
      → lookup kid (m ++ n) ≡ elim (lookup kid m) [ none ↦ lookup kid n | some k ↦ some k ]
  unfolding lookup
  lookup-append kid [] n = refl
  lookup-append kid ((j, k) ∷ m) n = ground (arith, lookup-append kid m n)

  lookup-concat-none_iff :
      (x kid : String) (k : Public) (seen : KeyMap Public)
      → (lookup x (seen ++ (kid, k) ∷ []) ≡ none) ↔ ((lookup x seen ≡ none) × (kid ≢ x))
  unfolding lookup
  lookup-concat-none_iff x kid k [] = ground (arith, eq_iff kid x)
  lookup-concat-none_iff x kid k ((j, y) ∷ seen) =
      ground (arith, eq_iff kid x, eq_iff j x, lookup-concat-none_iff x kid k seen)

abbrev pub kids : List Jwk → List String
kids [] = []
kids (value ∷ values) = value.key_id ∷ kids values

-- No text comes twice.
abbrev pub Distinct : List String → Type 0
Distinct [] = Unit
Distinct (x ∷ xs) = (¬ In x xs) × Distinct xs

module _ {Public : Type 0} where
  -- No JWK of the list has a kid of the map.
  abbrev pub Fresh : KeyMap Public → List Jwk → Type 0
  Fresh seen values = All (λ v. lookup v.key_id seen ≡ none) values

  Fresh-concat_iff :
      (seen : KeyMap Public) (kid : String) (k : Public) (values : List Jwk)
      → Fresh (seen ++ (kid, k) ∷ []) values ↔ (Fresh seen values × ¬ In kid (kids values))
  Fresh-concat_iff seen kid k [] = ((λ h. (tt, λ n. n)), (λ h. tt))
  Fresh-concat_iff seen kid k (v ∷ values) =
      let ih = Fresh-concat_iff seen kid k values in
      let here = lookup-concat-none_iff v.key_id kid k seen in
      (
        λ h. (
          ((here.0 h.0).0, (ih.0 h.1).0),
          λ m. elim m [ inl e ↦ (here.0 h.0).1 (sym e) | inr later ↦ (ih.0 h.1).1 later ],
        ),
        λ h. (here.1 (h.0.0, λ e. h.1 (inl (sym e))), ih.1 (h.0.1, λ later. h.1 (inr later))),
      )

Fresh-nil : (Public : Type 0) (values : List Jwk) → Fresh {Public = Public} [] values
unfolding lookup
Fresh-nil Public [] = tt
Fresh-nil Public (v ∷ values) = (refl, Fresh-nil Public values)

module _ {Public : Type 0} (ecdsa : Ecdsa Public) where
  -- The map has the JWKs' keys under their kids, in the order of the document.
  abbrev pub Holds : List Jwk → KeyMap Public → Type 0
  Holds [] [] = Unit
  Holds [] (_ ∷ _) = ⊥
  Holds (_ ∷ _) [] = ⊥
  Holds (value ∷ values) ((kid, k) ∷ keys) =
      (kid ≡ value.key_id) × (public_key ecdsa value ≡ ok k) × Holds values keys

  -- What the loop adds to the keys read so far.
  record Adds (seen : KeyMap Public) (values : List Jwk) (keys : KeyMap Public) : Type 0 where
    added : KeyMap Public
    joined : keys ≡ seen ++ added
    held : Holds values added
    distinct : Distinct (kids values)
    fresh : Fresh seen values

  parse_from-Adds :
      (seen : KeyMap Public) (values : List Jwk) (keys : KeyMap Public)
      → parse_from ecdsa seen values ≡ ok keys
      → Adds seen values keys
  unfolding parse_from
  parse_from-Adds seen [] keys h = record {
    added = [];
    joined = rw append-nil (ground arith);
    held = tt;
    distinct = tt;
    fresh = tt;
  }
  parse_from-Adds seen (value ∷ values) keys h = elim (result_cases (public_key ecdsa value)) [
    | inr (e, bad) ↦ absurd (ground arith)
    | inl (k, good) ↦ elim (Option-cases (lookup value.key_id seen)) [
      | inr (j, again) ↦ absurd (ground arith)
      | inl new ↦
          let r = parse_from-Adds (seen ++ (value.key_id, k) ∷ []) values keys (ground arith) in
          let (fresh, absent) = (Fresh-concat_iff seen value.key_id k values).0 r.fresh in
          record {
            added = (value.key_id, k) ∷ r.added;
            joined = r.joined ∙ append_assoc seen ((value.key_id, k) ∷ []) r.added;
            held = (refl, good, r.held);
            distinct = (absent, r.distinct);
            fresh = (new, fresh);
          }
    ]
  ]

  parse_from_of_Adds :
      (seen : KeyMap Public) (values : List Jwk) (added : KeyMap Public)
      → Holds values added
      → Distinct (kids values)
      → Fresh seen values
      → parse_from ecdsa seen values ≡ ok (seen ++ added)
  unfolding parse_from
  parse_from_of_Adds seen [] [] h d f = rw append-nil
  parse_from_of_Adds seen [] (a ∷ added) h d f = absurd h
  parse_from_of_Adds seen (value ∷ values) [] h d f = absurd h
  parse_from_of_Adds seen (value ∷ values) ((kid, k) ∷ added) (same, good, h) (absent, d) (new, f) =
      let fresh = (Fresh-concat_iff seen value.key_id k values).1 (f, absent) in
      let rest = parse_from_of_Adds (seen ++ (value.key_id, k) ∷ []) values added h d fresh in
      rw (good, new, rest, append_assoc, same)

  -- The loop of parseKeys reads a document into exactly the keys of its JWKs under their kids; it
  -- fails where a JWK is no key or a kid comes twice.
  pub parse_from-Holds_iff :
      (values : List Jwk) (keys : KeyMap Public)
      → (parse_from ecdsa [] values ≡ ok keys) ↔ (Holds values keys × Distinct (kids values))
  parse_from-Holds_iff values keys = (
    λ h.
        let a = parse_from-Adds [] values keys h in
        (subst (Holds values) (sym a.joined) a.held, a.distinct),
    λ h. parse_from_of_Adds [] values keys h.0 h.1 (Fresh-nil Public values),
  )

  -- The JWK's kid finds the key that it describes.
  abbrev pub Finds : KeyMap Public → Jwk → Type 0
  Finds keys v = (k : Public) × (lookup v.key_id keys ≡ some k) × (public_key ecdsa v ≡ ok k)

  -- An entry under another kid does not hide the later ones.
  Finds-later :
      (kid : String) (k : Public) (keys : KeyMap Public) (values : List Jwk)
      → ¬ In kid (kids values)
      → All (Finds keys) values
      → All (Finds ((kid, k) ∷ keys)) values
  unfolding lookup
  Finds-later kid k keys [] absent h = tt
  Finds-later kid k keys (v ∷ values) absent ((j, found, good), h) = (
    (j, ground (arith, eq_iff kid v.key_id, λ (e : kid ≡ v.key_id). absent (inl (sym e))), good),
    Finds-later kid k keys values (λ m. absent (inr m)) h,
  )

  -- In a map that was read from a document, the kid of each JWK finds its key.
  pub Holds-Finds :
      (values : List Jwk) (keys : KeyMap Public)
      → Holds values keys
      → Distinct (kids values)
      → All (Finds keys) values
  unfolding lookup
  Holds-Finds [] keys h d = tt
  Holds-Finds (v ∷ values) [] h d = absurd h
  Holds-Finds (v ∷ values) ((kid, k) ∷ keys) (same, good, h) (absent, d) = (
    (k, rw same (rw (eq_refl v.key_id)), good),
    Finds-later kid k keys values (λ m. absent (subst (λ x. In x (kids values)) same m))
        (Holds-Finds values keys h d),
  )
