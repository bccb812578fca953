-- ===== src/Wire/RoundTrip.antt =====
-- Reading a claim set back from the object that it was written to.
use internal_jwt_handling.Base.{
  String, List, [], ◌∷◌, ◌++◌, none, Bool-cases, some, ◌≡◌, refl, ◌∙◌, sym, ap, All, contains, ◌==◌,
  inl, inr, false,
}
use mathlib.Core.List.{append_assoc}
use internal_jwt_handling.Time.{Time}
use internal_jwt_handling.Result.{Result, ok}
use internal_jwt_handling.Claims.{Claims, RegisteredClaims}
use internal_jwt_handling.Wire.{
  Json, Payload, Field, plain, omitempty, date_omitempty, audience_omitempty, members, encode, find,
}
use internal_jwt_handling.Wire.Members.{
  name_of, after_fields, find-encode, as_string-omitted, as_date-omitted,
}
use internal_jwt_handling.Wire.Dates.{cut_registered, cut_claims}
use internal_jwt_handling.Wire.Claims.{decode_claims}
use internal_jwt_handling.Issuer.SignedClaims.{SignedClaims, new_signed_claims, payload}
use internal_jwt_handling.Jwtgen.Signing.{unchecked_payload-eq-payload}
use internal_jwt_handling.Jwtgen.Unchecked.{new_unchecked_claims, unchecked_payload}

abbrev pub registered_names : List String
registered_names = "iss" ∷ "sub" ∷ "aud" ∷ "exp" ∷ "nbf" ∷ "iat" ∷ "jti" ∷ []

-- The fields of jwt.RegisteredClaims, by the names of RFC 7519, section 4.1.
abbrev pub registered_fields : RegisteredClaims → List Field
registered_fields r =
    omitempty "iss" r.issuer
    ∷ omitempty "sub" r.subject
    ∷ audience_omitempty "aud" r.audience
    ∷ date_omitempty "exp" r.expires_at
    ∷ date_omitempty "nbf" r.not_before
    ∷ date_omitempty "iat" r.issued_at
    ∷ omitempty "jti" r.id
    ∷ []

abbrev private_fields : Claims → List Field
private_fields c =
    plain "token_use" c.token_use
    ∷ plain "client_id" c.client_id
    ∷ plain "txn" c.txn
    ∷ omitempty "scope" c.scope
    ∷ omitempty "src_jti" c.source_jti
    ∷ date_omitempty "src_exp" c.source_expires_at
    ∷ omitempty "origin_sub" c.origin_sub
    ∷ omitempty "tenant_id" c.tenant_public_id
    ∷ omitempty "event_id" c.event_public_id
    ∷ []

-- None of the members has a registered name.
abbrev pub Unregistered : Payload → Type 0
Unregistered p = All (λ (m : String × Json). contains registered_names m.0 ≡ false) p

-- What golang-jwt documents of jwt.RegisteredClaims: it is read from the registered names, and the
-- other members do not matter.
pub record ReadsRegistered (read : Payload → Result RegisteredClaims) : Type 0 where
  pub reads :
      (cut : Time → Time) (r : RegisteredClaims) (rest : Payload)
      → Unregistered rest
      → read (encode cut (registered_fields r) ++ rest) ≡ ok (cut_registered cut r)

members-Unregistered :
    (cut : Time → Time) (f : Field) (p : Payload)
    → contains registered_names (name_of f) ≡ false
    → Unregistered p
    → Unregistered (members cut f ++ p)
members-Unregistered cut (plain k s) p free h = (free, h)
members-Unregistered cut (omitempty k s) p free h = elim (Bool-cases (s == "")) [
  | inl e ↦ rw e h
  | inr e ↦ rw e (free, h)
]
members-Unregistered cut (date_omitempty k none) p free h = h
members-Unregistered cut (date_omitempty k (some t)) p free h = (free, h)
members-Unregistered cut (audience_omitempty k []) p free h = h
members-Unregistered cut (audience_omitempty k (a ∷ [])) p free h = (free, h)
members-Unregistered cut (audience_omitempty k (a ∷ b ∷ more)) p free h = (free, h)

encode-Unregistered :
    (cut : Time → Time) (fields : List Field)
    → All (λ f. contains registered_names (name_of f) ≡ false) fields
    → Unregistered (encode cut fields)
unfolding encode
encode-Unregistered cut [] h = tt
encode-Unregistered cut (f ∷ fields) (free, h) =
    members-Unregistered cut f (encode cut fields) free (encode-Unregistered cut fields h)

private_fields-Unregistered :
    (cut : Time → Time) (c : Claims) → Unregistered (encode cut (private_fields c))
private_fields-Unregistered cut c =
    encode-Unregistered cut (private_fields c)
      (refl, (refl, (refl, (refl, (refl, (refl, (refl, (refl, (refl, tt)))))))))

encode-append :
    (cut : Time → Time) (xs ys : List Field)
    → encode cut (xs ++ ys) ≡ encode cut xs ++ encode cut ys
unfolding encode
encode-append cut [] ys = refl
encode-append cut (f ∷ xs) ys =
    ap (λ p. members cut f ++ p) (encode-append cut xs ys)
    ∙ sym (append_assoc (members cut f) (encode cut xs) (encode cut ys))

unchecked_payload-fields :
    (cut : Time → Time) (c : Claims)
    → unchecked_payload cut (new_unchecked_claims c)
      ≡ encode cut (registered_fields c.registered ++ private_fields c)
unfolding unchecked_payload new_unchecked_claims
unchecked_payload-fields cut c = refl

module _ (read : Payload → Result RegisteredClaims) (reads : ReadsRegistered read)
    (cut : Time → Time) where
  read_back :
      (c : Claims)
      → read (unchecked_payload cut (new_unchecked_claims c)) ≡ ok (cut_registered cut c.registered)
  read_back c =
      ap read (
        unchecked_payload-fields cut c
        ∙ encode-append cut (registered_fields c.registered) (private_fields c))
      ∙ reads.reads cut c.registered (encode cut (private_fields c))
          (private_fields-Unregistered cut c)

  found :
      (c : Claims) (name : String)
      → find name none (unchecked_payload cut (new_unchecked_claims c))
        ≡ after_fields cut name none (registered_fields c.registered ++ private_fields c)
  found c name =
      ap (find name none) (unchecked_payload-fields cut c)
      ∙ find-encode cut name none (registered_fields c.registered ++ private_fields c)

  -- The claim set that an unchecked wire form carries is read back from it, with its four dates cut
  -- as golang-jwt cuts a date that it writes: whatever the claims are, the members that the tags
  -- leave out read as the empty values that they stand for, given that golang-jwt reads its
  -- registered claims from their own members.
  pub decode_claims-unchecked_payload :
      (c : Claims)
      → decode_claims read (unchecked_payload cut (new_unchecked_claims c)) ≡ ok (cut_claims cut c)
  unfolding decode_claims
  decode_claims-unchecked_payload c =
      rw
        (
          read_back c,
          found c "token_use",
          found c "client_id",
          found c "txn",
          found c "scope",
          found c "src_jti",
          found c "src_exp",
          found c "origin_sub",
          found c "tenant_id",
          found c "event_id",
          as_string-omitted cut "scope" c.scope,
          as_string-omitted cut "src_jti" c.source_jti,
          as_date-omitted cut "src_exp" c.source_expires_at,
          as_string-omitted cut "origin_sub" c.origin_sub,
          as_string-omitted cut "tenant_id" c.tenant_public_id,
          as_string-omitted cut "event_id" c.event_public_id,
        )
        refl

  -- The claim set that a signed wire form was made from is read back from it, with its dates cut,
  -- given that golang-jwt reads its registered claims from their own members.
  pub decode_claims-payload :
      (c : Claims) (s : SignedClaims)
      → new_signed_claims c ≡ ok s
      → decode_claims read (payload cut s) ≡ ok (cut_claims cut c)
  decode_claims-payload c s signable =
      ap (decode_claims read) (sym (unchecked_payload-eq-payload cut c s signable))
      ∙ decode_claims-unchecked_payload c
