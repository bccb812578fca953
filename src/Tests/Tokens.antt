-- ===== src/Tests/Tokens.antt =====
-- A concrete signer for the tests, which has one key and signs the claims of one token; and the
-- reading of the registered claims.
use internal_jwt_handling.Base.{
  ℕ, ◌+◌, ◌*◌, ◌/◌, String, List, [], ◌∷◌, ◌++◌, Option, none, some, ◌==◌, ◌&&◌, nat_eq, Bool, true,
  false, if◌then◌else◌, ◌≡◌, refl, ap, ◌∙◌, arith, eq_iff, contains,
}
use internal_jwt_handling.Errors.{foreign}
use internal_jwt_handling.Time.{Time, second}
use internal_jwt_handling.Result.{Result, ok, err, ◌>>=◌}
use internal_jwt_handling.Wire.{
  Json, text, texts, date, Payload, audience_omitempty, encode, find, as_string, as_date,
}
use internal_jwt_handling.Wire.Members.{
  written, override, after_fields, as_string-omitted, as_date-omitted, find-encode-append,
  find-others,
}
use internal_jwt_handling.Wire.RoundTrip.{
  registered_names, registered_fields, Unregistered, ReadsRegistered,
}
use internal_jwt_handling.Claims.{Claims, RegisteredClaims}
use internal_jwt_handling.Issuer.Model.{Outside}
use internal_jwt_handling.Jwtgen.Unchecked.{new_unchecked_claims, unchecked_payload}

abbrev as_audience : Option Json → Result (List String)
as_audience none = ok []
as_audience (some (text a)) = ok (a ∷ [])
as_audience (some (texts l)) = ok l
as_audience (some (date t)) = err (foreign "aud")

abbrev pub read : Payload → Result RegisteredClaims
read p = do
  issuer ← as_string (find "iss" none p)
  subject ← as_string (find "sub" none p)
  audience ← as_audience (find "aud" none p)
  expires_at ← as_date (find "exp" none p)
  not_before ← as_date (find "nbf" none p)
  issued_at ← as_date (find "iat" none p)
  id ← as_string (find "jti" none p)
  ok (record {
    issuer = issuer;
    subject = subject;
    audience = audience;
    expires_at = expires_at;
    not_before = not_before;
    issued_at = issued_at;
    id = id;
  })

as_audience-omitted :
    (cut : Time → Time) (k : String) (l : List String)
    → as_audience (override none (written cut (audience_omitempty k l))) ≡ ok l
as_audience-omitted cut k [] = refl
as_audience-omitted cut k (a ∷ []) = refl
as_audience-omitted cut k (a ∷ b ∷ more) = refl

found :
    (cut : Time → Time) (name : String) (r : RegisteredClaims) (rest : Payload)
    → contains registered_names name ≡ true
    → Unregistered rest
    → find name none (encode cut (registered_fields r) ++ rest)
      ≡ after_fields cut name none (registered_fields r)
found cut name r rest known free =
    find-encode-append cut name none (registered_fields r) rest
    ∙ find-others name registered_names (after_fields cut name none (registered_fields r)) rest
        known free

pub reads : ReadsRegistered read
reads = record {
  reads = λ cut r rest free.
      rw
        (
          found cut "iss" r rest refl free,
          found cut "sub" r rest refl free,
          found cut "aud" r rest refl free,
          found cut "exp" r rest refl free,
          found cut "nbf" r rest refl free,
          found cut "iat" r rest refl free,
          found cut "jti" r rest refl free,
          as_string-omitted cut "iss" r.issuer,
          as_string-omitted cut "sub" r.subject,
          as_audience-omitted cut "aud" r.audience,
          as_date-omitted cut "exp" r.expires_at,
          as_date-omitted cut "nbf" r.not_before,
          as_date-omitted cut "iat" r.issued_at,
          as_string-omitted cut "jti" r.id,
        )
        refl;
}

abbrev same_texts : List String → List String → Bool
same_texts [] [] = true
same_texts [] (b ∷ bs) = false
same_texts (a ∷ as') [] = false
same_texts (a ∷ as') (b ∷ bs) = a == b && same_texts as' bs

abbrev same_json : Json → Json → Bool
same_json (text a) (text b) = a == b
same_json (texts as') (texts bs) = same_texts as' bs
same_json (date t) (date u) = nat_eq t u
same_json (text a) (texts bs) = false
same_json (text a) (date u) = false
same_json (texts as') (text b) = false
same_json (texts as') (date u) = false
same_json (date t) (text b) = false
same_json (date t) (texts bs) = false

abbrev same_payload : Payload → Payload → Bool
same_payload [] [] = true
same_payload [] (n ∷ q) = false
same_payload (m ∷ p) [] = false
same_payload ((k, a) ∷ p) ((l, b) ∷ q) = k == l && same_json a b && same_payload p q

same_texts-eq : (as' bs : List String) → same_texts as' bs ≡ true → as' ≡ bs
same_texts-eq [] [] h = refl
same_texts-eq [] (b ∷ bs) h = cc
same_texts-eq (a ∷ as') [] h = cc
same_texts-eq (a ∷ as') (b ∷ bs) h = ground (arith, eq_iff a b, same_texts-eq as' bs)

same_json-eq : (a b : Json) → same_json a b ≡ true → a ≡ b
same_json-eq (text a) (text b) h = ap text ((eq_iff a b).0 h)
same_json-eq (texts as') (texts bs) h = ap texts (same_texts-eq as' bs h)
same_json-eq (date t) (date u) h = ap date (ground arith)
same_json-eq (text a) (texts bs) h = cc
same_json-eq (text a) (date u) h = cc
same_json-eq (texts as') (text b) h = cc
same_json-eq (texts as') (date u) h = cc
same_json-eq (date t) (text b) h = cc
same_json-eq (date t) (texts bs) h = cc

same_payload-eq : (p q : Payload) → same_payload p q ≡ true → p ≡ q
same_payload-eq [] [] h = refl
same_payload-eq [] (n ∷ q) h = cc
same_payload-eq (m ∷ p) [] h = cc
same_payload-eq ((k, a) ∷ p) ((l, b) ∷ q) h =
    ground (arith, eq_iff k l, same_json-eq a b, same_payload-eq p q)

-- TimePrecision, one second.
abbrev pub to_second : Time → Time
to_second t = t / second * second

-- The wire form of the claims, signed by the key 1 under the kid "k1", is the token "signed".
abbrev pub signer : Claims → Outside ℕ ℕ
signer c = record {
  new_v7 = λ w. (ok "id", w + 1);
  numeric_date = to_second;
  signed_string = λ kid key p w.
      if kid == "k1"
        && nat_eq key 1
        && same_payload p (unchecked_payload to_second (new_unchecked_claims c))
      then (ok "signed", w)
      else (err (foreign "another key or payload"), w);
}

pub record Signed (c : Claims) (kid : String) (key : ℕ) (p : Payload) (token : String)
    : Type 0 where
  pub under : kid ≡ "k1"
  pub by : key ≡ 1
  pub over : p ≡ unchecked_payload to_second (new_unchecked_claims c)
  pub is : token ≡ "signed"

pub signer-Signed :
    (c : Claims) (kid : String) (key : ℕ) (p : Payload) (token : String) (w w' : ℕ)
    → (signer c).signed_string kid key p w ≡ (ok token, w')
    → Signed c kid key p token
signer-Signed c kid key p token w w' h =
    let same = same_payload-eq p (unchecked_payload to_second (new_unchecked_claims c)) in
    record {
      under = ground (arith, eq_iff kid "k1");
      by = ground arith;
      over = ground (arith, same);
      is = ground arith;
    }
