-- ===== src/Issuer/KeyFiles/Loading.antt =====
-- What the key files of issuer/keys.go are loaded into.
use internal_jwt_handling.Base.{
  String, List, [], ◌∷◌, some, ◌≡◌, ◌≢◌, refl, arith, eq_iff, contains, contains_iff, In, inl, inr,
  true, false, subst,
}
use internal_jwt_handling.Result.{ok}
use internal_jwt_handling.Result.Inversion.{result_cases}
use internal_jwt_handling.Io.Inversion.{outcome}
use internal_jwt_handling.Jwk.{Ecdsa, is_p256}
use internal_jwt_handling.Issuer.Model.{PublishedKey, KeySet}
use internal_jwt_handling.Issuer.KeyFiles.{
  KeyFile, Disk, read_pem_file, parse_private_key, parse_public_key, read_private_key_file,
  read_public_key_file, load_published, load,
}

module _ {W Private Public : Type 0} (ecdsa : Ecdsa Public) (disk : Disk W Private Public) where
  read_private_key_file-p256 :
      (path : String) (w w' : W) (key : Private)
      → read_private_key_file ecdsa disk path w ≡ (ok key, w')
      → is_p256 (ecdsa.curve_of (disk.public_of key)) ≡ true
  unfolding read_private_key_file
  read_private_key_file-p256 path w w' key h = elim (outcome (read_pem_file ecdsa disk path w)) [
    | inr (e, u, lost) ↦ absurd (ground arith)
    | inl (block, u, read) ↦ elim (result_cases (parse_private_key ecdsa disk block)) [
      | inr (e, bad) ↦ absurd (ground arith)
      | inl (k, parsed) ↦ ground arith
    ]
  ]

  read_public_key_file-p256 :
      (file : KeyFile) (w w' : W) (key : Public)
      → read_public_key_file ecdsa disk file w ≡ (ok key, w')
      → is_p256 (ecdsa.curve_of key) ≡ true
  unfolding read_public_key_file
  read_public_key_file-p256 file w w' key h =
      elim (outcome (read_pem_file ecdsa disk file.path w)) [
        | inr (e, u, lost) ↦ absurd (ground arith)
        | inl (block, u, read) ↦ elim (result_cases (parse_public_key ecdsa disk block)) [
          | inr (e, bad) ↦ absurd (ground arith)
          | inl (k, parsed) ↦ ground arith
        ]
      ]

  -- Published keys as their files are configured: in their order, under their kids, which are not
  -- empty and differ from each other and from those seen before; each key is on P-256.
  pub data Loaded : List String → List KeyFile → List (PublishedKey Public) → Type 0 where
    done : {seen : List String} → Loaded seen [] []
    key :
        {seen : List String} {file : KeyFile} {files : List KeyFile}
        {rest : List (PublishedKey Public)} (k : Public)
        → file.key_id ≢ ""
        → ¬ In file.key_id seen
        → is_p256 (ecdsa.curve_of k) ≡ true
        → Loaded (file.key_id ∷ seen) files rest
        → Loaded seen (file ∷ files) (record { key_id = file.key_id; key = some k } ∷ rest)

  load_published-Loaded :
      (seen : List String) (files : List KeyFile) (w w' : W) (keys : List (PublishedKey Public))
      → load_published ecdsa disk seen files w ≡ (ok keys, w')
      → Loaded seen files keys
  unfolding load_published
  load_published-Loaded seen [] w w' keys h =
      let same : [] ≡ keys = ground arith in subst (Loaded seen []) same done
  load_published-Loaded seen (file ∷ files) w w' keys h =
      elim (outcome (read_public_key_file ecdsa disk file w)) [
        | inr (e, u, lost) ↦ absurd (ground arith)
        | inl (k, u, read) ↦
            elim (outcome (load_published ecdsa disk (file.key_id ∷ seen) files u)) [
              | inr (e, v, lost) ↦ absurd (ground arith)
              | inl (rest, v, loaded) ↦
                  let same : record { key_id = file.key_id; key = some k } ∷ rest ≡ keys =
                    ground arith in
                  let named : file.key_id ≢ "" = ground (arith, eq_iff file.key_id "") in
                  let new : contains seen file.key_id ≡ false = ground arith in
                  let unseen : ¬ In file.key_id seen =
                    λ m. cc (new, (contains_iff seen file.key_id).1 m) in
                  subst (Loaded seen (file ∷ files)) same (
                    key k named unseen (read_public_key_file-p256 file w u k read)
                      (load_published-Loaded (file.key_id ∷ seen) files u v rest loaded))
            ]
      ]

  -- A key set as its files are configured: a P-256 key to sign with under the configured kid, and
  -- the published keys.
  pub record IsLoaded (signing : KeyFile) (published : List KeyFile) (set : KeySet Private Public)
      : Type 0 where
    pub named : signing.key_id ≢ ""
    pub kid : set.signing.key_id ≡ signing.key_id
    pub private : Private
    pub held : set.signing.key ≡ some private
    pub on_p256 : is_p256 (ecdsa.curve_of (disk.public_of private)) ≡ true
    pub loaded : Loaded (signing.key_id ∷ []) published set.published

  -- A load that succeeds gives a key set as its files are configured: a P-256 key to sign with, and
  -- P-256 keys to publish in their order under kids that are not empty and all differ.
  pub load-IsLoaded :
      (signing : KeyFile) (published : List KeyFile) (w w' : W) (set : KeySet Private Public)
      → load ecdsa disk signing published w ≡ (ok set, w')
      → IsLoaded signing published set
  unfolding load
  load-IsLoaded signing published w w' set h =
      elim (outcome (read_private_key_file ecdsa disk signing.path w)) [
        | inr (e, u, lost) ↦ absurd (ground arith)
        | inl (private, u, read) ↦
            elim (outcome (load_published ecdsa disk (signing.key_id ∷ []) published u)) [
              | inr (e, v, lost) ↦ absurd (ground arith)
              | inl (rest, v, loaded) ↦
                  let same : record {
                    signing = record { key_id = signing.key_id; key = some private };
                    published = rest;
                  }
                      ≡ set =
                    ground arith in
                  subst (IsLoaded signing published) same (record {
                    named = ground (arith, eq_iff signing.key_id "");
                    kid = refl;
                    private = private;
                    held = refl;
                    on_p256 = read_private_key_file-p256 signing.path w u private read;
                    loaded = load_published-Loaded (signing.key_id ∷ []) published u v rest loaded;
                  })
            ]
      ]
