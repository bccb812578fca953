-- ===== src/Issuer/Chain.antt =====
-- A processing chain: a claim set, and the service tokens that IssueUserOriginService re-issues from
-- it hop by hop (issuer/service.go), each for a service that holds the one before.
use internal_jwt_handling.Base.{◌≡◌, refl, sym, ap, ◌∙◌, ◌≢◌, eq_iff, arith, subst, In}
use internal_jwt_handling.Time.{Time}
use internal_jwt_handling.Result.{ok}
use internal_jwt_handling.Claims.{Claims, token_use_service}
use internal_jwt_handling.Issuer.Model.{Outside, Issuer, UserOriginServiceInput}
use internal_jwt_handling.Issuer.Derive.{user_origin_service_claims, origin_sub_of}
use internal_jwt_handling.Issuer.Derive.Inversion.{user_origin_service_claims-FromUser}
use internal_jwt_handling.Issuer.Validate.Accepted.{validate_user_origin_service-IsReissuable}

-- What a later token of a chain keeps of an earlier one: the chain's identifier, the scope, the
-- tenant and event, and the user that it goes back to.
pub record Keeps (c d : Claims) : Type 0 where
  pub txn : d.txn ≡ c.txn
  pub scope : d.scope ≡ c.scope
  pub tenant : d.tenant_public_id ≡ c.tenant_public_id
  pub event : d.event_public_id ≡ c.event_public_id
  pub user : origin_sub_of d ≡ origin_sub_of c

-- How a hop's token stands to the context token that it was made from.
pub record Succeeds (c d : Claims) : Type 0 where
  pub keeps : Keeps c d
  pub service : d.token_use ≡ token_use_service
  pub source : d.source_jti ≡ c.id
  pub user : d.origin_sub ≡ origin_sub_of c
  pub caller : d.client_id ≡ d.subject
  pub held : In d.subject c.audience

origin_sub_of-passed :
    (c d : Claims)
    → d.origin_sub ≡ origin_sub_of c
    → c.subject ≢ ""
    → origin_sub_of d ≡ origin_sub_of c
origin_sub_of-passed c d e h = ground (arith, eq_iff d.origin_sub "", eq_iff c.origin_sub "")

module _ {W Private Public : Type 0} (out : Outside W Private) (i : Issuer W Private Public) where
  pub data Hop : Claims → Claims → Type 0 where
    reissue :
        {c d : Claims} (input : UserOriginServiceInput) (now : Time) (w w' : W)
        → input.context ≡ c
        → user_origin_service_claims out i input now w ≡ (ok d, w')
        → Hop c d

  pub data Chain (c : Claims) : Claims → Type 0 where
    start : Chain c c
    then : {d e : Claims} → Chain c d → Hop d e → Chain c e

  -- A hop's token is a service token of the caller, to which the context token was addressed; its
  -- src_jti is the context token's jti, and its origin_sub the user that the context goes back to.
  pub Hop-Succeeds : {c d : Claims} → Hop c d → Succeeds c d
  Hop-Succeeds {c} {d} (reissue input now w w' same made) =
      let f = user_origin_service_claims-FromUser out i input now w w' d made in
      let v = validate_user_origin_service-IsReissuable input now f.valid in
      let user : d.origin_sub ≡ origin_sub_of input.context = ap (λ x. x.origin_sub) f.claims in
      subst (λ x. Succeeds x d) same
        (record {
          keeps = record {
            txn = ap (λ x. x.txn) f.claims;
            scope = ap (λ x. x.scope) f.claims;
            tenant = ap (λ x. x.tenant_public_id) f.claims;
            event = ap (λ x. x.event_public_id) f.claims;
            user = origin_sub_of-passed input.context d user v.subject;
          };
          service = ap (λ x. x.token_use) f.claims;
          source = ap (λ x. x.source_jti) f.claims;
          user = user;
          caller = ap (λ x. x.client_id) f.claims ∙ sym (ap (λ x. x.subject) f.claims);
          held =
              subst (λ s. In s input.context.audience) (sym (ap (λ x. x.subject) f.claims))
                v.held.held;
        })

  -- However many hops a chain has, its last token keeps the first one's txn, scope, tenant, event
  -- and user.
  pub Chain-Keeps : {c d : Claims} → Chain c d → Keeps c d
  Chain-Keeps start = record { txn = refl; scope = refl; tenant = refl; event = refl; user = refl }
  Chain-Keeps (then r h) =
      let k = Chain-Keeps r in
      let s = (Hop-Succeeds h).keeps in
      record {
        txn = s.txn ∙ k.txn;
        scope = s.scope ∙ k.scope;
        tenant = s.tenant ∙ k.tenant;
        event = s.event ∙ k.event;
        user = s.user ∙ k.user;
      }

  -- After at least one hop from a token with no origin_sub of its own, the token is a service token
  -- whose origin_sub is the subject of the first.
  pub Chain-origin_sub :
      {c d e : Claims}
      → c.origin_sub ≡ ""
      → Chain c d
      → Hop d e
      → (e.token_use ≡ token_use_service) × (e.origin_sub ≡ c.subject)
  Chain-origin_sub {c} external r h =
      let s = Hop-Succeeds h in
      let first : origin_sub_of c ≡ c.subject = ground (arith, eq_iff c.origin_sub "") in
      (s.service, s.user ∙ (Chain-Keeps r).user ∙ first)
