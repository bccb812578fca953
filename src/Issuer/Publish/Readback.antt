-- ===== src/Issuer/Publish/Readback.antt =====
-- The key set that the issuer publishes, as parseKeys of jwks/cache.go reads it.
use internal_jwt_handling.Base.{
  String, List, [], ◌∷◌, some, ◌≡◌, refl, sym, subst, inl, inr, All, arith, contains, contains_iff,
  In, Option-cases, Bool-cases,
}
use internal_jwt_handling.Result.{ok}
use internal_jwt_handling.Result.Inversion.{result_cases}
use internal_jwt_handling.Jwk.{Jwk, Jwks, Ecdsa, new_jwk}
use internal_jwt_handling.Jwk.RoundTrip.{IsStandard, new_jwk-eq-some, public_key-new_jwk}
use internal_jwt_handling.Issuer.Model.{KeySet, PublishedKey}
use internal_jwt_handling.Issuer.Publish.{publish_from, publish_keys}
use internal_jwt_handling.Jwks.Model.{KeyMap}
use internal_jwt_handling.Jwks.Fetch.{parse_from}
use internal_jwt_handling.Jwks.Documents.{Holds, Distinct, kids, parse_from-Holds_iff}

-- The map has the published keys under their kids, in their order.
abbrev pub Publishes : {Public : Type 0} → List (PublishedKey Public) → KeyMap Public → Type 0
Publishes [] [] = Unit
Publishes [] (_ ∷ _) = ⊥
Publishes (_ ∷ _) [] = ⊥
Publishes (p ∷ ps) ((kid, k) ∷ keys) = (kid ≡ p.key_id) × (p.key ≡ some k) × Publishes ps keys

-- No JWK has one of the kids.
abbrev Avoids : List String → List Jwk → Type 0
Avoids seen keys = All (λ j. ¬ In j.key_id seen) keys

Avoids-cons :
    (kid : String) (seen : List String) (keys : List Jwk)
    → Avoids (kid ∷ seen) keys
    → Avoids seen keys × ¬ In kid (kids keys)
Avoids-cons kid seen [] h = (tt, λ m. m)
Avoids-cons kid seen (j ∷ keys) (here, h) =
    let (rest, absent) = Avoids-cons kid seen keys h in
    (
      (λ m. here (inr m), rest),
      λ m. elim m [ inl e ↦ here (inl (sym e)) | inr later ↦ absent later ],
    )

module _ {Private Public : Type 0} (ecdsa : Ecdsa Public) (public_of : Private → Public)
    (standard : IsStandard ecdsa) where
  -- What the loop appends.
  record Appends (seen : List String) (ps : List (PublishedKey Public)) (keys : List Jwk)
      : Type 0 where
    map : KeyMap Public
    published : Publishes ps map
    held : Holds ecdsa keys map
    distinct : Distinct (kids keys)
    avoids : Avoids seen keys

  -- One more key before what was appended.
  add_key :
      (seen : List String) (p : PublishedKey Public) (ps : List (PublishedKey Public)) (j : Jwk)
      (keys : List Jwk)
      → new_jwk ecdsa p.key_id p.key ≡ ok j
      → ¬ In p.key_id seen
      → Appends (p.key_id ∷ seen) ps keys
      → Appends seen (p ∷ ps) (j ∷ keys)
  add_key seen p ps j keys made unseen a =
      let (k, given) = new_jwk-eq-some ecdsa p.key_id p.key j made in
      let (read, named) =
        public_key-new_jwk ecdsa standard p.key_id k j
          (subst (λ o. new_jwk ecdsa p.key_id o ≡ ok j) given made) in
      let (avoided, absent) = Avoids-cons p.key_id seen keys a.avoids in
      record {
        map = (p.key_id, k) ∷ a.map;
        published = (refl, given, a.published);
        held = (sym named, read, a.held);
        distinct = (λ m. absent (subst (λ x. In x (kids keys)) named m), a.distinct);
        avoids = (λ m. unseen (subst (λ x. In x seen) named m), avoided);
      }

  publish_from-Appends :
      (seen : List String) (ps : List (PublishedKey Public)) (keys : List Jwk)
      → publish_from ecdsa public_of seen ps ≡ ok keys
      → Appends seen ps keys
  unfolding publish_from
  publish_from-Appends seen [] [] h = record {
    map = [];
    published = tt;
    held = tt;
    distinct = tt;
    avoids = tt;
  }
  publish_from-Appends seen [] (j ∷ keys) h = cc
  publish_from-Appends seen (p ∷ ps) all h = elim (Bool-cases (contains seen p.key_id)) [
    | inl again ↦ absurd (ground arith)
    | inr new ↦ elim (result_cases (new_jwk ecdsa p.key_id p.key)) [
      | inr (e, bad) ↦ absurd (ground arith)
      | inl (j, made) ↦ elim (result_cases (publish_from ecdsa public_of (p.key_id ∷ seen) ps)) [
        | inr (e, bad) ↦ absurd (ground arith)
        | inl (keys, rest) ↦
            let all_keys : j ∷ keys ≡ all = ground arith in
            let unseen : ¬ In p.key_id seen = λ m. cc (new, (contains_iff seen p.key_id).1 m) in
            subst (Appends seen (p ∷ ps)) all_keys (
              add_key seen p ps j keys made unseen
                (publish_from-Appends (p.key_id ∷ seen) ps keys rest))
      ]
    ]
  ]

  -- The document that the issuer publishes is read by parseKeys, if crypto/ecdsa is as documented:
  -- into the public half of the signing key and the published keys, each under its kid.
  pub publish_keys-parse_from :
      (set : KeySet Private Public) (document : Jwks)
      → publish_keys ecdsa public_of set ≡ ok document
      → (private : Private) × (map : KeyMap Public) × (set.signing.key ≡ some private)
        × Publishes set.published map
        × (parse_from ecdsa [] document.keys ≡ ok ((set.signing.key_id, public_of private) ∷ map))
  unfolding publish_keys
  publish_keys-parse_from set document h = elim (Option-cases set.signing.key) [
    | inl missed ↦ absurd (ground arith)
    | inr (private, given) ↦
        elim (result_cases (new_jwk ecdsa set.signing.key_id (some (public_of private)))) [
          | inr (e, bad) ↦ absurd (ground arith)
          | inl (j, made) ↦
              elim (result_cases (publish_from ecdsa public_of (j.key_id ∷ []) set.published)) [
                | inr (e, bad) ↦ absurd (ground arith)
                | inl (keys, rest) ↦
                    let a = publish_from-Appends (j.key_id ∷ []) set.published keys rest in
                    let (read, named) =
                      public_key-new_jwk ecdsa standard set.signing.key_id (public_of private) j
                        made in
                    let all_keys : j ∷ keys ≡ document.keys = ground arith in
                    let (avoided, absent) = Avoids-cons j.key_id [] keys a.avoids in
                    (
                      private,
                      a.map,
                      given,
                      a.published,
                      subst
                          (λ ks.
                            parse_from ecdsa [] ks
                            ≡ ok ((set.signing.key_id, public_of private) ∷ a.map))
                          all_keys
                          ((parse_from-Holds_iff ecdsa (j ∷ keys)
                              ((set.signing.key_id, public_of private) ∷ a.map)).1
                            ((sym named, read, a.held), (absent, a.distinct))),
                    )
              ]
        ]
  ]
