-- ===== src/Tests/Parsing.antt =====
-- A concrete parser for the tests: it reads the claims of one token back under the other half of the
-- key that signed it, where the issuer is right and the times are.
use internal_jwt_handling.Base.{
  ltb, leb, ◌<◌, ◌≤◌, ◌≢◌, inl, inr, Bool-cases, String, Option, none, some, ◌==◌, ◌&&◌, Bool, true,
  false, if◌then◌else◌, ◌≡◌, refl, sym, ap, ◌∙◌, subst, arith, eq_iff, contains, contains_iff,
}
use internal_jwt_handling.Errors.{foreign}
use internal_jwt_handling.Time.{Time, Duration, add}
use internal_jwt_handling.Result.{Result, ok, err}
use internal_jwt_handling.Io.Inversion.{outcome}
use internal_jwt_handling.Verifier.Trust.{IsCurrent, Parsed}
use internal_jwt_handling.Io.{Io, continue}
use internal_jwt_handling.Wire.{find}
use internal_jwt_handling.Wire.Dates.{cut_claims}
use internal_jwt_handling.Wire.Claims.{decode_claims}
use internal_jwt_handling.Wire.RoundTrip.{decode_claims-unchecked_payload}
use internal_jwt_handling.Claims.{Claims}
use internal_jwt_handling.Verifier.Build.{Header, ParserOptions, Parser}
use internal_jwt_handling.Tests.Publishing.{public_of}
use internal_jwt_handling.Agreement.{header_of, Agrees}
use internal_jwt_handling.Tests.Tokens.{read, reads, to_second, signer, signer-Signed}

abbrev expires : Duration → Time → Option Time → Bool
expires leeway t none = false
expires leeway t (some exp) = ltb t (add exp leeway)

abbrev begun : Duration → Time → Option Time → Bool
begun leeway t none = true
begun leeway t (some nbf) = leb nbf (add t leeway)

abbrev in_time : Duration → Time → Claims → Bool
in_time leeway t c =
    expires leeway t c.expires_at && begun leeway t c.not_before && begun leeway t c.issued_at

abbrev pub parser : {V : Type 0} → Claims → Parser V Bool
parser c o token find v = continue (find (header_of "k1") v) (λ key u.
    if token == "signed"
      && key
      && contains o.valid_methods "ES256"
      && c.issuer == o.issuer
      && in_time o.leeway (o.time_func u).0 c
    then (ok c, (o.time_func u).1)
    else (err (foreign "invalid"), u))

expires_complete :
    (leeway : Duration) (t : Time) (d : Option Time)
    → d ≢ none
    → ((exp : Time) → d ≡ some exp → t < add exp leeway)
    → expires leeway t d ≡ true
expires_complete leeway t none h k = absurd (h refl)
expires_complete leeway t (some exp) h k = ground (arith, k exp refl)

begun_complete :
    (leeway : Duration) (t : Time) (d : Option Time)
    → ((nbf : Time) → d ≡ some nbf → nbf ≤ add t leeway)
    → begun leeway t d ≡ true
begun_complete leeway t none k = refl
begun_complete leeway t (some nbf) k = ground (arith, k nbf refl)

in_time_complete :
    (leeway : Duration) (t : Time) (c : Claims)
    → c.expires_at ≢ none
    → IsCurrent leeway t c
    → in_time leeway t c ≡ true
in_time_complete leeway t c h k =
    rw
      (
        expires_complete leeway t c.expires_at h k.not_expired,
        begun_complete leeway t c.not_before k.begun,
        begun_complete leeway t c.issued_at k.issued,
      )
      refl

expires_sound :
    (leeway : Duration) (t : Time) (d : Option Time)
    → expires leeway t d ≡ true
    → (d ≢ none) × ((exp : Time) → d ≡ some exp → t < add exp leeway)
expires_sound leeway t none h = cc
expires_sound leeway t (some u) h = ((λ e. cc), λ exp e. ground arith)

begun_sound :
    (leeway : Duration) (t : Time) (d : Option Time)
    → begun leeway t d ≡ true
    → (nbf : Time) → d ≡ some nbf
    → nbf ≤ add t leeway
begun_sound leeway t none h nbf e = cc
begun_sound leeway t (some u) h nbf e = ground arith

in_time_sound :
    (leeway : Duration) (t : Time) (c : Claims)
    → in_time leeway t c ≡ true
    → (c.expires_at ≢ none) × IsCurrent leeway t c
in_time_sound leeway t c h =
    let (there, ends) = expires_sound leeway t c.expires_at (ground arith) in
    (
      there,
      record {
        not_expired = ends;
        begun = begun_sound leeway t c.not_before (ground arith);
        issued = begun_sound leeway t c.issued_at (ground arith);
      },
    )

same_ok : {A : Type 0} (r : Result A) (a b : A) → r ≡ ok a → r ≡ ok b → a ≡ b
same_ok r a b e f = cc

parser-reads :
    {V : Type 0} (c : Claims) (o : ParserOptions V) (find : Header → Io V Bool) (v v' : V)
    → contains o.valid_methods "ES256" ≡ true
    → c.issuer ≡ o.issuer
    → find (header_of "k1") v ≡ (ok true, v')
    → in_time o.leeway (o.time_func v').0 c ≡ true
    → parser c o "signed" find v ≡ (ok c, (o.time_func v').1)
parser-reads c o find v v' method issuer answer timely =
    ground (arith, answer, method, timely, eq_iff c.issuer o.issuer)

pub agrees :
    {V : Type 0} (c : Claims)
    → Agrees (signer c) (parser {V = V} (cut_claims to_second c)) read public_of
agrees {V} c = record {
  settled = λ t. omega arith;
  filled = λ kid key p token w w' h e.
      absurd (ground (arith, (signer-Signed c kid key p token w w' h).is, e, eq_iff "signed" ""));
  accepts = λ kid key p token w w' d h decoded o find v v' method issuer answer expires current.
      let s = signer-Signed c kid key p token w w' h in
      let e = cut_claims to_second c in
      let same : e ≡ d =
        same_ok (decode_claims read p) e d
          (ap (decode_claims read) s.over ∙ decode_claims-unchecked_payload read reads to_second c)
          decoded in
      let issuer' : e.issuer ≡ o.issuer = ap (λ x. x.issuer) same ∙ issuer in
      let answer' : find (header_of "k1") v ≡ (ok true, v') =
        ap (λ k. find (header_of k) v) (sym s.under)
        ∙ answer
        ∙ ap (λ n. (ok (public_of n), v')) s.by in
      subst (λ x. parser e o token find v ≡ (ok x, (o.time_func v').1)) same
        (subst (λ t. parser e o t find v ≡ (ok e, (o.time_func v').1)) (sym s.is)
          (parser-reads e o find v v' ((contains_iff o.valid_methods "ES256").1 method) issuer'
            answer'
            (in_time_complete o.leeway (o.time_func v').0 e
              (subst (λ x. x.expires_at ≢ none) (sym same) expires)
              (subst (IsCurrent o.leeway (o.time_func v').0) (sym same) current))));
}

-- The tokens of the key are the ones that verify under its other half.
abbrev pub SignedBy : String → String → Bool → Type 0
SignedBy token method key = key ≡ true

pub parses :
    {V : Type 0} (c : Claims) (o : ParserOptions V) (token : String) (find : Header → Io V Bool)
    (w w' : V) (d : Claims)
    → parser c o token find w ≡ (ok d, w')
    → Parsed SignedBy o token find w d
parses c o token find w w' d h = elim (outcome (find (header_of "k1") w)) [
  | inr (e, u, lost) ↦ absurd (ground arith)
  | inl (key, u, found) ↦ elim (Bool-cases (in_time o.leeway (o.time_func u).0 c)) [
    | inr late ↦ absurd (ground arith)
    | inl timely ↦ elim (Bool-cases (contains o.valid_methods "ES256")) [
      | inr other ↦ absurd (ground arith)
      | inl listed ↦
          let same : c ≡ d = ground (arith, eq_iff token "signed", eq_iff c.issuer o.issuer) in
          let (there, current) = in_time_sound o.leeway (o.time_func u).0 c timely in
          subst (Parsed SignedBy o token find w) same (record {
            header = header_of "k1";
            key = key;
            method = "ES256";
            after = u;
            found = found;
            valid_method = λ r. (contains_iff o.valid_methods "ES256").0 listed;
            signature = ground arith;
            issuer = λ r. ground (arith, eq_iff c.issuer o.issuer);
            expires = λ r. there;
            read_at = u;
            checked = record {
              not_expired = current.not_expired;
              begun = current.begun;
              issued = λ on. current.issued;
            };
          })
    ]
  ]
]
