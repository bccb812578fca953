-- ===== src/Jwtgen/Minted.antt =====
-- What a token of jwtgen's Generate carries.
use internal_jwt_handling.Base.{
  String, some, ◌≡◌, ◌≢◌, arith, eq_iff, inl, inr, Bool-cases, eq-false_iff, ◌==◌,
}
use internal_jwt_handling.Time.{Duration, add}
use internal_jwt_handling.Result.{ok}
use internal_jwt_handling.Io.{Clock}
use internal_jwt_handling.Claims.{Claims, token_use_service}
use internal_jwt_handling.Issuer.Model.{Outside, Issuer, Issued}
use internal_jwt_handling.Issuer.Issue.Derived.{
  issue_from_external-Derived, issue_user_origin_service-Derived,
  issue_machine_origin_service-Derived,
}
use internal_jwt_handling.Issuer.Issue
use internal_jwt_handling.Jwtgen.Generator.{Config, or_default, default_caller}
use internal_jwt_handling.Jwtgen.Issue.{
  external_input_of, service_context, machine_origin_context, issue,
}
use internal_jwt_handling.Jwtgen.Carries.{
  Carries, or_default-filled, user_input_of, machine_input_of, external_claims-Carries,
  user_claims-Carries, machine_claims-Carries,
}

module _ {W Private Public : Type 0} (out : Outside W Private)
    (filled : (w : W) (s : String) → (out.new_v7 w).0 ≡ ok s → s ≢ "") (system_clock : Clock W)
    (i : Issuer W Private Public) where
  -- A claim set that a configuration asks for, and its issuing.
  abbrev Minted : Config → W → Issued → Type 0
  Minted config w' issued =
      (c : Claims) × (v : W) × Carries out.numeric_date i.issuer_id config c
      × (Issue.issue out i c v ≡ (ok issued, w'))

  mint_external-Minted :
      (config : Config) (ttl : Duration) (w w' : W) (issued : Issued)
      → config.token_use ≢ token_use_service
      → config.origin_sub ≡ ""
      → config.txn ≡ ""
      → issue out system_clock i config ttl w ≡ (ok issued, w')
      → Minted config w' issued
  unfolding issue
  mint_external-Minted config ttl w w' issued other_use origin txn h =
      let end = add (system_clock w).0 ttl in
      let u = (system_clock w).1 in
      let (c, v, derived, signed) =
        issue_from_external-Derived out i (external_input_of config end) u w' issued
          (ground (arith, eq_iff config.token_use token_use_service)) in
      (
        c,
        v,
        external_claims-Carries out filled i config end (i.clock u).0 (i.clock u).1 v c other_use
            origin txn derived,
        signed,
      )

  mint_user-Minted :
      (config : Config) (ttl : Duration) (w w' : W) (issued : Issued)
      → config.token_use ≡ token_use_service
      → config.origin_sub ≢ ""
      → issue out system_clock i config ttl w ≡ (ok issued, w')
      → Minted config w' issued
  unfolding issue service_context
  mint_user-Minted config ttl w w' issued service origin h =
      let caller = or_default config.subject default_caller in
      let (context, u) = service_context out system_clock config caller ttl w in
      let (c, v, derived, signed) =
        issue_user_origin_service-Derived out i (user_input_of config context) u w' issued (
          ground (arith, eq_iff config.token_use token_use_service, eq_iff config.origin_sub "")) in
      (
        c,
        v,
        user_claims-Carries out filled i config context (i.clock u).0 (i.clock u).1 v c service
            origin (or_default-filled config.txn _) derived,
        signed,
      )

  machine_context-fixed :
      (config : Config) (caller : String) (ttl : Duration) (w : W)
      → config.txn ≢ ""
      → (k : Claims) × ((machine_origin_context out system_clock config caller ttl w).0 ≡ some k)
        × (k.txn ≡ config.txn)
  unfolding machine_origin_context
  machine_context-fixed config caller ttl w n = (
    (service_context out system_clock config caller ttl w).0,
    ground (arith, eq_iff config.txn ""),
    unfold service_context in or_default-filled config.txn _ n,
  )

  mint_machine-Minted :
      (config : Config) (ttl : Duration) (w w' : W) (issued : Issued)
      → config.token_use ≡ token_use_service
      → config.origin_sub ≡ ""
      → issue out system_clock i config ttl w ≡ (ok issued, w')
      → Minted config w' issued
  unfolding issue
  mint_machine-Minted config ttl w w' issued service origin h =
      let caller = or_default config.subject default_caller in
      let (context, u) = machine_origin_context out system_clock config caller ttl w in
      let (c, v, derived, signed) =
        issue_machine_origin_service-Derived out i (machine_input_of config context) u w' issued (
          ground (arith, eq_iff config.token_use token_use_service, eq_iff config.origin_sub "")) in
      (
        c,
        v,
        machine_claims-Carries out filled i config context (i.clock u).0 (i.clock u).1 v c service
            origin (machine_context-fixed config caller ttl w) derived,
        signed,
      )

  -- `issue` mints the claim set that the configuration asks for.
  pub issue-Minted :
      (config : Config) (ttl : Duration) (w w' : W) (issued : Issued)
      → (config.token_use ≢ token_use_service → (config.origin_sub ≡ "") × (config.txn ≡ ""))
      → issue out system_clock i config ttl w ≡ (ok issued, w')
      → Minted config w' issued
  issue-Minted config ttl w w' issued allowed h =
      elim (Bool-cases (config.token_use == token_use_service)) [
        | inr other ↦
            let external : config.token_use ≢ token_use_service =
              (eq-false_iff config.token_use token_use_service).0 other in
            mint_external-Minted config ttl w w' issued external (allowed external).0
              (allowed external).1 h
        | inl same ↦
            let service = (eq_iff config.token_use token_use_service).0 same in
            elim (Bool-cases (config.origin_sub == "")) [
              | inl machine ↦
                  mint_machine-Minted config ttl w w' issued service
                    ((eq_iff config.origin_sub "").0 machine) h
              | inr user ↦
                  mint_user-Minted config ttl w w' issued service
                    ((eq-false_iff config.origin_sub "").0 user) h
            ]
      ]
