-- ===== src/Issuer/KeyFiles/Publishing.antt =====
-- A key set that the provider of issuer/keys.go has loaded is one that the issuer can publish.
use internal_jwt_handling.Base.{
  ℕ, String, List, [], ◌∷◌, some, ◌≡◌, ◌≢◌, refl, sym, subst, ◌∙◌, contains, contains_iff,
  Bool-cases, true, false, inl, inr,
}
use internal_jwt_handling.Result.{ok}
use internal_jwt_handling.Jwk.{Jwk, Jwks, Ecdsa, p256, is_p256, new_jwk}
use internal_jwt_handling.Jwk.RoundTrip.{
  IsStandard, is_p256-eq, new_jwk-succeeds, public_key-new_jwk,
}
use internal_jwt_handling.Issuer.Model.{PublishedKey, KeySet}
use internal_jwt_handling.Issuer.Publish.{publish_from, publish_keys}
use internal_jwt_handling.Issuer.KeyFiles.{KeyFile, Disk}
use internal_jwt_handling.Issuer.KeyFiles.Loading.{Loaded, done, key, IsLoaded}

module _ {W Private Public : Type 0} (ecdsa : Ecdsa Public) (disk : Disk W Private Public)
    (standard : IsStandard ecdsa)
    (encodes : (k : Public)
      → ecdsa.curve_of k ≡ some p256
      → (bs : List ℕ) × (ecdsa.bytes k ≡ ok bs)) where
  describe :
      (kid : String) (k : Public)
      → kid ≢ ""
      → is_p256 (ecdsa.curve_of k) ≡ true
      → (j : Jwk) × (new_jwk ecdsa kid (some k) ≡ ok j)
  describe kid k named good =
      let on = is_p256-eq (ecdsa.curve_of k) good in
      let (bs, read) = encodes k on in new_jwk-succeeds ecdsa standard kid k bs named on read

  publish_from-succeeds :
      {seen : List String} {files : List KeyFile} {keys : List (PublishedKey Public)}
      → Loaded ecdsa disk seen files keys
      → (js : List Jwk) × (publish_from ecdsa disk.public_of seen keys ≡ ok js)
  unfolding publish_from
  publish_from-succeeds done = ([], refl)
  publish_from-succeeds {seen} (key {file = file} k named unseen good rest) =
      let (j, made) = describe file.key_id k named good in
      let (js, later) = publish_from-succeeds rest in
      let new : contains seen file.key_id ≡ false = elim (Bool-cases (contains seen file.key_id)) [
        | inl again ↦ absurd (unseen ((contains_iff seen file.key_id).0 again))
        | inr new ↦ new
      ] in
      (j ∷ js, rw (new, made, later) refl)

  -- A key set that was loaded from its files is published without an error, if crypto/ecdsa encodes
  -- P-256 keys as it documents.
  pub publish_keys-succeeds :
      (signing : KeyFile) (published : List KeyFile) (set : KeySet Private Public)
      → IsLoaded ecdsa disk signing published set
      → (document : Jwks) × (publish_keys ecdsa disk.public_of set ≡ ok document)
  unfolding publish_keys
  publish_keys-succeeds signing published set l =
      let named : set.signing.key_id ≢ "" = subst (λ kid. kid ≢ "") (sym l.kid) l.named in
      let (j, made) = describe set.signing.key_id (disk.public_of l.private) named l.on_p256 in
      let same : j.key_id ≡ set.signing.key_id =
        (public_key-new_jwk ecdsa standard set.signing.key_id (disk.public_of l.private) j
          made).1 in
      let seen : signing.key_id ≡ j.key_id = sym (same ∙ l.kid) in
      let loaded : Loaded ecdsa disk (j.key_id ∷ []) published set.published =
        subst (λ kid. Loaded ecdsa disk (kid ∷ []) published set.published) seen l.loaded in
      let (js, rest) = publish_from-succeeds loaded in
      (record { keys = j ∷ js }, rw (l.held, made, rest) refl)
