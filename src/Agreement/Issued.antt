-- ===== src/Agreement/Issued.antt =====
-- A token of an Issue method of issuer/issuer.go is accepted by a verifier of verifier/verifier.go
-- that has been set up for its issuer.
use internal_jwt_handling.Base.{String, some, ◌≡◌, ◌≢◌, sym, ap, ◌∙◌, subst, ◌≤◌, ◌+◌, inl, inr}
use internal_jwt_handling.Time.{Time, add, second}
use internal_jwt_handling.Result.{Result, ok}
use internal_jwt_handling.Wire.{Payload}
use internal_jwt_handling.Wire.RoundTrip.{ReadsRegistered}
use internal_jwt_handling.Wire.Dates.{IsCut, cut_claims-IsDated}
use internal_jwt_handling.Claims.{Claims, RegisteredClaims}
use internal_jwt_handling.Issuer.Model.{
  KeySet, Outside, Issuer, ExternalTokenInput, UserOriginServiceInput, MachineOriginServiceInput,
  Issued,
}
use internal_jwt_handling.Issuer.Derive.{capped_expiry}
use internal_jwt_handling.Issuer.Derive.Inversion.{
  external_token_claims-FromExternal, user_origin_service_claims-FromUser,
  machine_origin_service_claims-FromMachine,
}
use internal_jwt_handling.Issuer.Derive.Internal.{
  external_token_claims-IsInternal, user_origin_service_claims-IsInternal,
  machine_origin_service_claims-IsInternal,
}
use internal_jwt_handling.Issuer.Derive.Lifetime.{Truncates}
use internal_jwt_handling.Issuer.Issue.{
  issue, issue_from_external, issue_user_origin_service, issue_machine_origin_service,
}
use internal_jwt_handling.Issuer.Issue.Derived.{
  issue_from_external-Derived, issue_user_origin_service-Derived,
  issue_machine_origin_service-Derived,
}
use internal_jwt_handling.Issuer.Issue.Signing.{issue-Signs_iff}
use internal_jwt_handling.Verifier.Build.{Parser, Verifier}
use internal_jwt_handling.Verifier.Verify.{verify_for}
use internal_jwt_handling.Verifier.WellFormed.{IsInternal}
use internal_jwt_handling.Verifier.Trust.{IsReady}
use internal_jwt_handling.Agreement.{Agrees}
use internal_jwt_handling.Agreement.Times.{same_some, Spans, Spans-IsCurrent, le-capped_expiry}
use internal_jwt_handling.Agreement.Accepted.{verify_for-Signs}

same_ok : {A : Type 0} (r : Result A) (a b : A) → r ≡ ok a → r ≡ ok b → a ≡ b
same_ok r a b e f = cc

module _ {W V Private Public : Type 0} (out : Outside W Private) (parse : Parser V Public)
    (read : Payload → Result RegisteredClaims) (public_of : Private → Public)
    (reads : ReadsRegistered read) (agrees : Agrees out parse read public_of) where
  module _ (i : Issuer W Private Public) (x : Verifier V Public) (ready : IsReady x) where
    -- An issuer and a verifier of the same issuer name; the issuer's provider keeps its signing key,
    -- and the verifier's resolver answers to its kid with its public half.
    pub record Shares (keys : KeySet Private Public) (private : Private) (v v' : V) : Type 0 where
      pub issuer : i.issuer_id ≡ x.issuer_id
      pub provided : (w : W) → (i.keys w).0 ≡ ok keys
      pub held : keys.signing.key ≡ some private
      pub resolved : x.keys keys.signing.key_id v ≡ (ok (some (public_of private)), v')

    module _ (truncates : Truncates out.numeric_date) where
      accepted :
          (audience : String) (c : Claims) (now end : Time) (w w' : W) (issued : Issued) (v v' : V)
          (keys : KeySet Private Public) (private : Private)
          → Shares keys private v v'
          → Spans out.numeric_date now end c
          → IsInternal audience c
          → IsCut out.numeric_date c.source_expires_at
          → c.issuer ≡ i.issuer_id
          → issue out i c w ≡ (ok issued, w')
          → now ≤ (ready.clock v').0
          → (ready.clock v').0 + second ≤ end
          → verify_for parse x issued.token audience v ≡ (ok issued.claims, (ready.clock v').1)
      accepted audience c now end w w' issued v v' keys private shares spans internal source made h
            begun lives =
          let s = (issue-Signs_iff out i c w w' issued).0 h in
          let same_keys : keys ≡ s.keys =
            same_ok (i.keys w).0 keys s.keys (shares.provided w) (ap (λ p. p.0) s.provided) in
          let same_key : private ≡ s.private =
            same_some keys.signing.key private s.private shares.held
              (ap (λ k. k.signing.key) same_keys ∙ s.held) in
          let resolved : x.keys s.keys.signing.key_id v ≡ (ok (some (public_of s.private)), v') =
            subst (λ k. x.keys s.keys.signing.key_id v ≡ (ok (some (public_of k)), v')) same_key
              (subst (λ k. x.keys k.signing.key_id v ≡ (ok (some (public_of private)), v'))
                same_keys shares.resolved) in
          let current =
            Spans-IsCurrent out.numeric_date now end (ready.clock v').0 x.leeway c truncates
              ready.leeway spans begun lives in
          subst (λ d. verify_for parse x issued.token audience v ≡ (ok d, (ready.clock v').1))
            (sym s.claims)
            (verify_for-Signs out parse read public_of reads agrees i x ready audience c w w' issued
              v v' s internal
              (cut_claims-IsDated out.numeric_date agrees.settled c (record {
                expires_at = inr (end, spans.expires_at);
                not_before = inr (now, spans.not_before);
                issued_at = inr (now, spans.issued_at);
                source_expires_at = source;
              }))
              (made ∙ shares.issuer) (λ e. cc (spans.expires_at, e)) resolved current)

      module _ (filled : (w : W) (s : String) → (out.new_v7 w).0 ≡ ok s → s ≢ "") where
        -- A token that IssueFromExternal returns is accepted, with the claims that came with it, by
        -- a verifier of the same issuer whose resolver has the public half of the signing key under
        -- its kid, for the input's audience, as long as the verifier's clock reads no less than the
        -- issuer's did and at least a second less than the end of the external token and than that
        -- of the issuer's lifetime; given a UUID that is not empty, and that golang-jwt cuts times to
        -- the second and reads what it has signed.
        pub verify_for-issue_from_external :
            (input : ExternalTokenInput) (w w' : W) (issued : Issued) (v v' : V)
            (keys : KeySet Private Public) (private : Private)
            → issue_from_external out i input w ≡ (ok issued, w')
            → Shares keys private v v'
            → (i.clock w).0 ≤ (ready.clock v').0
            → (ready.clock v').0 + second ≤ input.source_expires_at
            → (ready.clock v').0 + second ≤ add (i.clock w).0 i.ttl
            → verify_for parse x issued.token input.audience v
              ≡ (ok issued.claims, (ready.clock v').1)
        verify_for-issue_from_external input w w' issued v v' keys private h shares begun in_source
              in_ttl =
            let (c, u, derived, signed) = issue_from_external-Derived out i input w w' issued h in
            let now = (i.clock w).0 in
            let f = external_token_claims-FromExternal out i input now (i.clock w).1 u c derived in
            let internal =
              external_token_claims-IsInternal out filled i input now (i.clock w).1 u c derived in
            let spans : Spans out.numeric_date now (capped_expiry now i.ttl input.source_expires_at)
                c =
              record {
                expires_at = ap (λ d. d.expires_at) f.claims;
                not_before = ap (λ d. d.not_before) f.claims;
                issued_at = ap (λ d. d.issued_at) f.claims;
              } in
            accepted input.audience c now (capped_expiry now i.ttl input.source_expires_at) u w'
              issued v v' keys private shares spans internal
              (inr (input.source_expires_at, ap (λ d. d.source_expires_at) f.claims))
              (ap (λ d. d.issuer) f.claims) signed begun
              (le-capped_expiry now i.ttl input.source_expires_at _ in_source in_ttl)

        -- A token that IssueUserOriginService returns is accepted, with the claims that came
        -- with it, by a verifier of the same issuer whose resolver has the public half of the signing
        -- key under its kid, for the input's audience, as long as the verifier's clock reads no less
        -- than the issuer's did and at least a second less than the end of the issuer's lifetime; given
        -- a UUID that is not empty, and that golang-jwt cuts times to the second and reads what it has
        -- signed.
        pub verify_for-issue_user_origin_service :
            (input : UserOriginServiceInput) (w w' : W) (issued : Issued) (v v' : V)
            (keys : KeySet Private Public) (private : Private)
            → issue_user_origin_service out i input w ≡ (ok issued, w')
            → Shares keys private v v'
            → (i.clock w).0 ≤ (ready.clock v').0
            → (ready.clock v').0 + second ≤ add (i.clock w).0 i.ttl
            → verify_for parse x issued.token input.audience v
              ≡ (ok issued.claims, (ready.clock v').1)
        verify_for-issue_user_origin_service input w w' issued v v' keys private h shares begun
              in_ttl =
            let (c, u, derived, signed) =
              issue_user_origin_service-Derived out i input w w' issued h in
            let now = (i.clock w).0 in
            let f = user_origin_service_claims-FromUser out i input now (i.clock w).1 u c derived in
            let internal =
              user_origin_service_claims-IsInternal out filled i input now (i.clock w).1 u c
                derived in
            let spans : Spans out.numeric_date now (add now i.ttl) c = record {
              expires_at = ap (λ d. d.expires_at) f.claims;
              not_before = ap (λ d. d.not_before) f.claims;
              issued_at = ap (λ d. d.issued_at) f.claims;
            } in
            accepted input.audience c now (add now i.ttl) u w' issued v v' keys private shares spans
              internal (inl (ap (λ d. d.source_expires_at) f.claims)) (ap (λ d. d.issuer) f.claims)
              signed begun in_ttl

        -- A token that IssueMachineOriginService returns is accepted, with the claims that came
        -- with it, by a verifier of the same issuer whose resolver has the public half of the signing
        -- key under its kid, for the input's audience, as long as the verifier's clock reads no less
        -- than the issuer's did and at least a second less than the end of the issuer's lifetime; given
        -- a UUID that is not empty, and that golang-jwt cuts times to the second and reads what it has
        -- signed.
        pub verify_for-issue_machine_origin_service :
            (input : MachineOriginServiceInput) (w w' : W) (issued : Issued) (v v' : V)
            (keys : KeySet Private Public) (private : Private)
            → issue_machine_origin_service out i input w ≡ (ok issued, w')
            → Shares keys private v v'
            → (i.clock w).0 ≤ (ready.clock v').0
            → (ready.clock v').0 + second ≤ add (i.clock w).0 i.ttl
            → verify_for parse x issued.token input.audience v
              ≡ (ok issued.claims, (ready.clock v').1)
        verify_for-issue_machine_origin_service input w w' issued v v' keys private h shares begun
              in_ttl =
            let (c, u, derived, signed) =
              issue_machine_origin_service-Derived out i input w w' issued h in
            let now = (i.clock w).0 in
            let f =
              machine_origin_service_claims-FromMachine out i input now (i.clock w).1 u c derived in
            let internal =
              machine_origin_service_claims-IsInternal out filled i input now (i.clock w).1 u c
                derived in
            let spans : Spans out.numeric_date now (add now i.ttl) c = record {
              expires_at = ap (λ d. d.expires_at) f.claims;
              not_before = ap (λ d. d.not_before) f.claims;
              issued_at = ap (λ d. d.issued_at) f.claims;
            } in
            accepted input.audience c now (add now i.ttl) u w' issued v v' keys private shares spans
              internal (inl (ap (λ d. d.source_expires_at) f.claims)) (ap (λ d. d.issuer) f.claims)
              signed begun in_ttl
