-- ===== src/Jwk/RoundTrip.antt =====
-- PublicKey of jwk.go reads what NewJWK wrote.
use internal_jwt_handling.Base.{
  ℕ, String, List, ◌∷◌, ◌++◌, Option, none, some, ◌≡◌, ◌≢◌, refl, subst, inl, inr, All, arith,
  eq_iff, length, length-append, nat_eq, take, drop, take-append, drop-append, true, false, ◌==◌,
}
use internal_jwt_handling.Result.{ok}
use internal_jwt_handling.Result.Inversion.{result_cases}
use internal_jwt_handling.Base64.{encode}
use internal_jwt_handling.Base64.Laws.{IsByte, decode-encode}
use internal_jwt_handling.Jwk.{
  Jwk, Curve, p256, other, Ecdsa, is_p256, coordinate, new_jwk, public_key, algorithm, key_type,
  curve, key_use,
}

-- The uncompressed encoding of a P-256 key (SEC 1, section 2.3.3): the byte 4 and two coordinates
-- of 32 bytes.
pub record IsUncompressed (encoded : List ℕ) : Type 0 where
  pub x : List ℕ
  pub y : List ℕ
  pub joined : encoded ≡ 4 ∷ x ++ y
  pub x_length : length x ≡ 32
  pub y_length : length y ≡ 32
  pub x_bytes : All IsByte x
  pub y_bytes : All IsByte y

-- What crypto/ecdsa documents of a P-256 key's Bytes and of ParseUncompressedPublicKey.
pub record IsStandard {Public : Type 0} (ecdsa : Ecdsa Public) : Type 0 where
  pub uncompressed :
      (k : Public) (encoded : List ℕ)
      → ecdsa.curve_of k ≡ some p256
      → ecdsa.bytes k ≡ ok encoded
      → IsUncompressed encoded
  pub parses :
      (k : Public) (encoded : List ℕ)
      → ecdsa.curve_of k ≡ some p256
      → ecdsa.bytes k ≡ ok encoded
      → ecdsa.parse_uncompressed encoded ≡ ok k

pub is_p256-eq : (c : Option Curve) → is_p256 c ≡ true → c ≡ some p256
is_p256-eq none h = cc
is_p256-eq (some p256) h = refl
is_p256-eq (some (other name)) h = cc

coordinate-encode :
    (name : String) (bs : List ℕ)
    → length bs ≡ 32
    → All IsByte bs
    → coordinate name (encode bs) ≡ ok bs
unfolding coordinate
coordinate-encode name bs n h = rw (decode-encode bs h) (ground (arith, n))

-- The JWK of a key that is encoded so.
abbrev jwk_of : String → List ℕ → Jwk
jwk_of kid encoded = record {
  key_type = key_type;
  curve = curve;
  key_id = kid;
  use' = key_use;
  algorithm = algorithm;
  x = encode (take 32 (drop 1 encoded));
  y = encode (drop 33 encoded);
}

module _ {Public : Type 0} (ecdsa : Ecdsa Public) where
  -- What NewJWK has checked, and what it has written.
  pub record Describes (kid : String) (k : Public) (j : Jwk) : Type 0 where
    pub named : kid ≢ ""
    pub on_p256 : ecdsa.curve_of k ≡ some p256
    pub encoded : List ℕ
    pub bytes : ecdsa.bytes k ≡ ok encoded
    pub written : j ≡ record {
      key_type = key_type;
      curve = curve;
      key_id = kid;
      use' = key_use;
      algorithm = algorithm;
      x = encode (take 32 (drop 1 encoded));
      y = encode (drop 33 encoded);
    }

  pub new_jwk-Describes :
      (kid : String) (k : Public) (j : Jwk) → new_jwk ecdsa kid (some k) ≡ ok j → Describes kid k j
  unfolding new_jwk
  new_jwk-Describes kid k j h = elim (result_cases (ecdsa.bytes k)) [
    | inr (e, lost) ↦ absurd (ground arith)
    | inl (encoded, found) ↦ record {
      named = ground (arith, eq_iff kid "");
      on_p256 = is_p256-eq (ecdsa.curve_of k) (ground arith);
      encoded = encoded;
      bytes = found;
      written = ground arith;
    }
  ]

  -- NewJWK refuses a nil key.
  pub new_jwk-eq-some :
      (kid : String) (key : Option Public) (j : Jwk)
      → new_jwk ecdsa kid key ≡ ok j
      → (k : Public) × (key ≡ some k)
  unfolding new_jwk
  new_jwk-eq-some kid none j h = absurd (ground arith)
  new_jwk-eq-some kid (some k) j h = (k, refl)

  -- With keys as crypto/ecdsa documents them, PublicKey reads back the key and the kid that NewJWK
  -- wrote.
  pub public_key-new_jwk :
      IsStandard ecdsa
      → (kid : String) (k : Public) (j : Jwk) → new_jwk ecdsa kid (some k) ≡ ok j
      → (public_key ecdsa j ≡ ok k) × (j.key_id ≡ kid)
  unfolding public_key
  public_key-new_jwk standard kid k j h =
      let d = new_jwk-Describes kid k j h in
      let u = standard.uncompressed k d.encoded d.on_p256 d.bytes in
      let x_read : take 32 (u.x ++ u.y) ≡ u.x =
        subst (λ n. take n (u.x ++ u.y) ≡ u.x) u.x_length (take-append u.x u.y) in
      let y_read : drop 32 (u.x ++ u.y) ≡ u.y =
        subst (λ n. drop n (u.x ++ u.y) ≡ u.y) u.x_length (drop-append u.x u.y) in
      let parsed : ecdsa.parse_uncompressed (4 ∷ u.x ++ u.y) ≡ ok k =
        subst (λ bs. ecdsa.parse_uncompressed bs ≡ ok k) u.joined
          (standard.parses k d.encoded d.on_p256 d.bytes) in
      let named : (kid == "") ≡ false = ground (arith, d.named, eq_iff kid "") in
      rw
        (
          d.written,
          u.joined,
          named,
          x_read,
          y_read,
          coordinate-encode "x" u.x u.x_length u.x_bytes,
          coordinate-encode "y" u.y u.y_length u.y_bytes,
          parsed,
        )
        (refl, refl)

  uncompressed_length : (bs : List ℕ) → IsUncompressed bs → length bs ≡ 65
  uncompressed_length bs u =
      rw u.joined (omega (arith, length-append u.x u.y, u.x_length, u.y_length))

  -- NewJWK describes every P-256 key that has an encoding.
  pub new_jwk-succeeds :
      IsStandard ecdsa
      → (kid : String) (k : Public) (bs : List ℕ) → kid ≢ ""
      → ecdsa.curve_of k ≡ some p256
      → ecdsa.bytes k ≡ ok bs
      → (j : Jwk) × (new_jwk ecdsa kid (some k) ≡ ok j)
  unfolding new_jwk
  new_jwk-succeeds standard kid k bs named on read =
      let size = uncompressed_length bs (standard.uncompressed k bs on read) in
      let filled : (kid == "") ≡ false = ground (arith, named, eq_iff kid "") in
      let fits : nat_eq (length bs) 65 ≡ true = ground (arith, size) in
      (jwk_of kid bs, rw (filled, on, read, fits) refl)
