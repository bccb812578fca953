-- ===== src/Jwtgen/Carries.antt =====
-- The claims that jwtgen's Generate derives for a configuration.
use internal_jwt_handling.Base.{
  String, none, Option, some, ◌≡◌, ◌≢◌, ◌⊎◌, sym, ap, ◌∙◌, arith, eq_iff, inl, inr, ◌==◌, false,
  if◌then◌else◌,
}
use internal_jwt_handling.Time.{Time, add}
use internal_jwt_handling.Result.{ok}
use internal_jwt_handling.Wire.Dates.{IsDated}
use internal_jwt_handling.Claims.{Claims, token_use_service}
use internal_jwt_handling.Verifier.WellFormed.{IsInternal}
use internal_jwt_handling.Issuer.Model.{
  Outside, Issuer, MachineOriginServiceInput, UserOriginServiceInput,
}
use internal_jwt_handling.Issuer.Derive.{
  capped_expiry, machine_origin_txn, external_token_claims, user_origin_service_claims,
  machine_origin_service_claims,
}
use internal_jwt_handling.Issuer.Derive.Inversion.{
  external_token_claims-FromExternal, user_origin_service_claims-FromUser,
  machine_origin_service_claims-FromMachine,
}
use internal_jwt_handling.Issuer.Derive.Internal.{
  external_token_claims-IsInternal, user_origin_service_claims-IsInternal,
  machine_origin_service_claims-IsInternal,
}
use internal_jwt_handling.Jwtgen.Generator.{Config, or_default, default_subject, default_caller}
use internal_jwt_handling.Jwtgen.Issue.{external_input_of, with_origin}

-- The claims that a configuration asks for, of an issuer. A machine-origin token has no scope,
-- tenant or event, whatever the configuration says. The dates are NumericDates.
pub record Carries (numeric_date : Time → Time) (issuer_id : String) (config : Config) (c : Claims)
    : Type 0 where
  pub internal : IsInternal config.audience c
  pub issuer : c.issuer ≡ issuer_id
  pub dated : IsDated numeric_date c
  pub expires : c.expires_at ≢ none
  pub token_use : c.token_use ≡ config.token_use
  pub subject :
      c.subject
      ≡ or_default config.subject
          (if config.token_use == token_use_service then default_caller else default_subject)
  pub origin_sub : c.origin_sub ≡ config.origin_sub
  pub txn : config.txn ≢ "" → c.txn ≡ config.txn
  pub carried :
      (config.token_use ≢ token_use_service) ⊎ (config.origin_sub ≢ "")
      → (c.scope ≡ config.scope)
        × (c.tenant_public_id ≡ config.tenant_public_id)
        × (c.event_public_id ≡ config.event_public_id)

pub or_default-filled : (value fallback : String) → value ≢ "" → or_default value fallback ≡ value
unfolding or_default
or_default-filled value fallback h = ground (arith, eq_iff value "")

abbrev pub user_input_of : Config → Claims → UserOriginServiceInput
user_input_of config context = record {
  audience = config.audience;
  caller_service = or_default config.subject default_caller;
  context = with_origin config context;
}

abbrev pub machine_input_of : Config → Option Claims → MachineOriginServiceInput
machine_input_of config context = record {
  audience = config.audience;
  caller_service = or_default config.subject default_caller;
  context = context;
}

module _ {W Private Public : Type 0} (out : Outside W Private)
    (filled : (w : W) (s : String) → (out.new_v7 w).0 ≡ ok s → s ≢ "")
    (i : Issuer W Private Public) where
  -- The claims of a conversion of the external token that was made up for the configuration.
  pub external_claims-Carries :
      (config : Config) (end now : Time) (w w' : W) (c : Claims)
      → config.token_use ≢ token_use_service
      → config.origin_sub ≡ ""
      → config.txn ≡ ""
      → external_token_claims out i (external_input_of config end) now w ≡ (ok c, w')
      → Carries out.numeric_date i.issuer_id config c
  external_claims-Carries config end now w w' c other_use origin txn h =
      let f =
        external_token_claims-FromExternal out i (external_input_of config end) now w w' c h in
      let other : (config.token_use == token_use_service) ≡ false =
        ground (arith, eq_iff config.token_use token_use_service) in
      record {
        internal =
            external_token_claims-IsInternal out filled i (external_input_of config end) now w w' c
              h;
        issuer = ap (λ x. x.issuer) f.claims;
        dated = record {
          expires_at = inr (capped_expiry now i.ttl end, ap (λ x. x.expires_at) f.claims);
          not_before = inr (now, ap (λ x. x.not_before) f.claims);
          issued_at = inr (now, ap (λ x. x.issued_at) f.claims);
          source_expires_at = inr (end, ap (λ x. x.source_expires_at) f.claims);
        };
        expires = λ e. cc (ap (λ x. x.expires_at) f.claims, e);
        token_use = ap (λ x. x.token_use) f.claims;
        subject = rw other (ap (λ x. x.subject) f.claims);
        origin_sub = ap (λ x. x.origin_sub) f.claims ∙ sym origin;
        txn = λ n. absurd (n txn);
        carried = λ r. (
          ap (λ x. x.scope) f.claims,
          ap (λ x. x.tenant_public_id) f.claims,
          ap (λ x. x.event_public_id) f.claims,
        );
      }

  -- The claims of a user-origin re-issue from a context that was made up for the configuration.
  pub user_claims-Carries :
      (config : Config) (context : Claims) (now : Time) (w w' : W) (c : Claims)
      → config.token_use ≡ token_use_service
      → config.origin_sub ≢ ""
      → (config.txn ≢ "" → context.txn ≡ config.txn)
      → user_origin_service_claims out i (user_input_of config context) now w ≡ (ok c, w')
      → Carries out.numeric_date i.issuer_id config c
  user_claims-Carries config context now w w' c service origin txn h =
      let f =
        user_origin_service_claims-FromUser out i (user_input_of config context) now w w' c h in
      let is_service = (eq_iff config.token_use token_use_service).1 service in
      record {
        internal =
            user_origin_service_claims-IsInternal out filled i (user_input_of config context) now w
              w' c h;
        issuer = ap (λ x. x.issuer) f.claims;
        dated = record {
          expires_at = inr (add now i.ttl, ap (λ x. x.expires_at) f.claims);
          not_before = inr (now, ap (λ x. x.not_before) f.claims);
          issued_at = inr (now, ap (λ x. x.issued_at) f.claims);
          source_expires_at = inl (ap (λ x. x.source_expires_at) f.claims);
        };
        expires = λ e. cc (ap (λ x. x.expires_at) f.claims, e);
        token_use = ap (λ x. x.token_use) f.claims ∙ sym service;
        subject = rw is_service (ap (λ x. x.subject) f.claims);
        origin_sub = ap (λ x. x.origin_sub) f.claims ∙ ground (arith, eq_iff config.origin_sub "");
        txn = λ n. ap (λ x. x.txn) f.claims ∙ txn n;
        carried = λ r. (
          ap (λ x. x.scope) f.claims,
          ap (λ x. x.tenant_public_id) f.claims,
          ap (λ x. x.event_public_id) f.claims,
        );
      }

  machine_txn :
      (config : Config) (context : Option Claims) (w w' : W) (txn : String)
      → (config.txn ≢ "" → (k : Claims) × (context ≡ some k) × (k.txn ≡ config.txn))
      → config.txn ≢ ""
      → machine_origin_txn out context w ≡ (ok txn, w')
      → txn ≡ config.txn
  unfolding machine_origin_txn
  machine_txn config context w w' txn fixed n h =
      let (k, given, same) = fixed n in ground (arith, given, same)

  -- The claims of a machine-origin token from a context that was made up for the configuration.
  pub machine_claims-Carries :
      (config : Config) (context : Option Claims) (now : Time) (w w' : W) (c : Claims)
      → config.token_use ≡ token_use_service
      → config.origin_sub ≡ ""
      → (config.txn ≢ "" → (k : Claims) × (context ≡ some k) × (k.txn ≡ config.txn))
      → machine_origin_service_claims out i (machine_input_of config context) now w ≡ (ok c, w')
      → Carries out.numeric_date i.issuer_id config c
  machine_claims-Carries config context now w w' c service origin fixed h =
      let f =
        machine_origin_service_claims-FromMachine out i (machine_input_of config context) now w w' c
          h in
      let is_service = (eq_iff config.token_use token_use_service).1 service in
      record {
        internal =
            machine_origin_service_claims-IsInternal out filled i (machine_input_of config context)
              now w w' c h;
        issuer = ap (λ x. x.issuer) f.claims;
        dated = record {
          expires_at = inr (add now i.ttl, ap (λ x. x.expires_at) f.claims);
          not_before = inr (now, ap (λ x. x.not_before) f.claims);
          issued_at = inr (now, ap (λ x. x.issued_at) f.claims);
          source_expires_at = inl (ap (λ x. x.source_expires_at) f.claims);
        };
        expires = λ e. cc (ap (λ x. x.expires_at) f.claims, e);
        token_use = ap (λ x. x.token_use) f.claims ∙ sym service;
        subject = rw is_service (ap (λ x. x.subject) f.claims);
        origin_sub = ap (λ x. x.origin_sub) f.claims ∙ sym origin;
        txn = λ n.
            ap (λ x. x.txn) f.claims
            ∙ machine_txn config context w f.between f.txn fixed n f.txn_made;
        carried = λ r. elim r [ inl other ↦ absurd (other service) | inr n ↦ absurd (n origin) ];
      }
