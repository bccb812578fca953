-- ===== src/Issuer/KeyFiles/Keeping.antt =====
-- The key provider of issuer/keys.go answers with the last keys that it could load.
use internal_jwt_handling.Base.{◌≡◌, refl, ◌⊎◌, inl, inr, arith, true, false, Bool-cases, subst}
use internal_jwt_handling.Base.Int.{ltb_ℤ, pos, ◌<ℤ◌}
use internal_jwt_handling.Time.{Time, Duration, sub}
use internal_jwt_handling.Errors.{Error}
use internal_jwt_handling.Result.{ok, err}
use internal_jwt_handling.Io.Inversion.{outcome}
use internal_jwt_handling.Jwk.{Ecdsa}
use internal_jwt_handling.Issuer.KeyFiles.{
  interval_of, FileKeyProviderConfig, FileKeyProvider, Disk, Answer, load, new_file_key_provider,
  current_at,
}
use internal_jwt_handling.Issuer.KeyFiles.Loading.{IsLoaded, load-IsLoaded}

interval_of-positive : (d : Duration) → pos 0 <ℤ interval_of d
interval_of-positive d = ground arith

module _ {W Private Public : Type 0} (ecdsa : Ecdsa Public) (disk : Disk W Private Public) where
  -- A provider whose keys were loaded from its files, with a positive interval between loads.
  pub record IsServing (p : FileKeyProvider Private Public) : Type 0 where
    pub keys : IsLoaded ecdsa disk p.signing p.published p.keys
    pub interval : pos 0 <ℤ p.refresh_interval

  -- A provider that is built serves keys that were loaded from its files, with a positive interval
  -- between loads.
  pub new_file_key_provider-IsServing :
      (config : FileKeyProviderConfig) (w w' : W) (p : FileKeyProvider Private Public)
      → new_file_key_provider ecdsa disk config w ≡ (ok p, w')
      → IsServing p
  unfolding new_file_key_provider
  new_file_key_provider-IsServing config w w' p h =
      elim (outcome (load ecdsa disk config.signing config.published w)) [
        | inr (e, u, lost) ↦ absurd (ground arith)
        | inl (set, u, loaded) ↦
            let interval = interval_of config.refresh_interval in
            let at = (disk.now u).0 in
            let same : record {
              signing = config.signing;
              published = config.published;
              refresh_interval = interval;
              keys = set;
              loaded_at = at;
            }
                ≡ p =
              ground arith in
            subst IsServing same (record {
              keys = load-IsLoaded ecdsa disk config.signing config.published w u set loaded;
              interval = interval_of-positive config.refresh_interval;
            })
      ]

  -- What a call of Current leaves: an answer with the keys that the provider holds from now on.
  -- Within the interval nothing has changed; after it the files have been loaded, and a load that
  -- failed has kept the keys.
  pub record IsAnswer (p : FileKeyProvider Private Public) (now : Time) (w : W)
      (a : Answer W Private Public) : Type 0 where
    pub answered : a.result ≡ ok a.provider.keys
    pub serving : IsServing a.provider
    pub course :
        (ltb_ℤ (sub now p.loaded_at) p.refresh_interval ≡ true) × (a.provider ≡ p) × (a.outside ≡ w)
        ⊎ (ltb_ℤ (sub now p.loaded_at) p.refresh_interval ≡ false)
          × (a.provider.loaded_at ≡ now)
          × ((load ecdsa disk p.signing p.published w ≡ (ok a.provider.keys, a.outside))
              ⊎ (a.provider.keys ≡ p.keys)
                × ((e : Error) × (load ecdsa disk p.signing p.published w ≡ (err e, a.outside))))

  -- Current of a serving provider never fails and leaves it serving: within the interval it answers
  -- with the keys at hand and touches nothing; after it, with those of a load, or, where the load
  -- fails, with the keys from before, and the next load waits for another interval.
  pub current_at-IsAnswer :
      (p : FileKeyProvider Private Public) (now : Time) (w : W)
      → IsServing p
      → IsAnswer p now w (current_at ecdsa disk p now w)
  unfolding current_at
  current_at-IsAnswer p now w s =
      elim (Bool-cases (ltb_ℤ (sub now p.loaded_at) p.refresh_interval)) [
        | inl recent ↦
            rw recent (record { answered = refl; serving = s; course = inl (recent, refl, refl) })
        | inr due ↦ elim (outcome (load ecdsa disk p.signing p.published w)) [
          | inl (set, v, loaded) ↦
              rw (due, loaded)
                (record {
                  answered = refl;
                  serving = record {
                    keys = load-IsLoaded ecdsa disk p.signing p.published w v set loaded;
                    interval = s.interval;
                  };
                  course = inr (due, refl, inl loaded);
                })
          | inr (e, v, lost) ↦
              rw (due, lost)
                (record {
                  answered = refl;
                  serving = record { keys = s.keys; interval = s.interval };
                  course = inr (due, refl, inr (refl, (e, lost)));
                })
        ]
      ]
