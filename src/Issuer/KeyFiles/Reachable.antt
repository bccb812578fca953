-- ===== src/Issuer/KeyFiles/Reachable.antt =====
-- Every state that NewFileKeyProvider and Current of issuer/keys.go bring a provider to.
use internal_jwt_handling.Base.{◌≡◌, List, ℕ, some}
use internal_jwt_handling.Result.{ok}
use internal_jwt_handling.Jwk.{Jwks, Ecdsa, p256}
use internal_jwt_handling.Jwk.RoundTrip.{IsStandard}
use internal_jwt_handling.Issuer.Model.{KeySet}
use internal_jwt_handling.Issuer.Publish.{publish_keys}
use internal_jwt_handling.Issuer.KeyFiles.{
  FileKeyProviderConfig, FileKeyProvider, Disk, new_file_key_provider, current,
}
use internal_jwt_handling.Issuer.KeyFiles.Keeping.{
  IsServing, new_file_key_provider-IsServing, current_at-IsAnswer,
}
use internal_jwt_handling.Issuer.KeyFiles.Publishing.{publish_keys-succeeds}

module _ {W Private Public : Type 0} (ecdsa : Ecdsa Public) (disk : Disk W Private Public) where
  -- A provider that NewFileKeyProvider built, after any calls of Current.
  pub data Reachable : FileKeyProvider Private Public → Type 0 where
    built :
        {p : FileKeyProvider Private Public} (config : FileKeyProviderConfig) (w w' : W)
        → new_file_key_provider ecdsa disk config w ≡ (ok p, w')
        → Reachable p
    asked :
        {p : FileKeyProvider Private Public} (w : W)
        → Reachable p
        → Reachable (current ecdsa disk p w).provider

  Reachable-IsServing : {p : FileKeyProvider Private Public} → Reachable p → IsServing ecdsa disk p
  unfolding current
  Reachable-IsServing (built {p} config w w' made) =
      new_file_key_provider-IsServing ecdsa disk config w w' p made
  Reachable-IsServing (asked {p} w r) =
      (current_at-IsAnswer ecdsa disk p (disk.now w).0 (disk.now w).1
        (Reachable-IsServing r)).serving

  module _ (standard : IsStandard ecdsa)
      (encodes : (k : Public)
        → ecdsa.curve_of k ≡ some p256
        → (bs : List ℕ) × (ecdsa.bytes k ≡ ok bs)) where
    -- Once a provider is built, Current always answers, whatever has happened to its files since:
    -- with keys that were loaded from them, which the issuer can publish; if crypto/ecdsa encodes
    -- P-256 keys as it documents.
    pub Reachable-current :
        {p : FileKeyProvider Private Public} (w : W)
        → Reachable p
        → (set : KeySet Private Public) × ((current ecdsa disk p w).result ≡ ok set)
          × ((document : Jwks) × (publish_keys ecdsa disk.public_of set ≡ ok document))
    unfolding current
    Reachable-current {p} w r =
        let a =
          current_at-IsAnswer ecdsa disk p (disk.now w).0 (disk.now w).1 (Reachable-IsServing r) in
        let q = (current ecdsa disk p w).provider in
        (
          q.keys,
          a.answered,
          publish_keys-succeeds ecdsa disk standard encodes q.signing q.published q.keys
              a.serving.keys,
        )
