-- ===== src/Orchestrator/Settings/Database.antt =====
-- `_load_from_aws` sets the database's URL whole or not at all, and `import orchestrator.settings`.
use turbocat.Prelude.{
  String, false, ◌≡◌, ◌⊎◌, refl, ◌∙◌, some, Result, ok, err, Exc, str_eq, inl, inr,
}
use turbocat.Prelude.Exec.{Exec, lift, continue, ◌>>=◌, ◌>>◌}
use turbocat.Python.Dict.{Dict, get?, put, get?-put}
use turbocat.Orchestrator.Settings.{
  Cloud, database_url, get_param, get_secret, setenv, load_others, load_from_aws,
}
use turbocat.Orchestrator.Settings.Loaded.{Database, load_database_outcome}

module _ (k : String) where
  -- A run that leaves the name as it is, whether it returns or raises.
  Keeps : {A : Type 0} → Exec (Dict String) A → Type 0
  Keeps m = (s : Dict String) → get? k (m s).1 ≡ get? k s

  lift-Keeps : {A : Type 0} (r : Result A) → Keeps (lift r)
  unfolding Keeps
  lift-Keeps r s = refl

  setenv-Keeps : (name value : String) → str_eq name k ≡ false → Keeps (setenv name value)
  unfolding Keeps
  setenv-Keeps name value other s = get?-put name k value s ∙ rw other refl

  module _ {A B : Type 0} (f : A → Exec (Dict String) B) (kept : (a : A) → Keeps (f a)) where
    continue-Keeps : (r : Result A) (s : Dict String) → get? k (continue r f s).1 ≡ get? k s
    unfolding Keeps
    continue-Keeps (ok a) s = kept a s
    continue-Keeps (err e) s = refl

    bind-Keeps : (m : Exec (Dict String) A) → Keeps m → Keeps (m >>= f)
    unfolding Keeps
    bind-Keeps m first s = continue-Keeps (m s).0 (m s).1 ∙ first s

  setting-Keeps :
      {A : Type 0} (name value : String) (rest : Exec (Dict String) A)
      → str_eq name k ≡ false
      → Keeps rest
      → Keeps (setenv name value >> rest)
  setting-Keeps name value rest other kept =
      bind-Keeps (λ _. rest) (λ _. kept) (setenv name value) (setenv-Keeps name value other)

  reading-Keeps :
      {A B : Type 0} (r : Result A) (f : A → Exec (Dict String) B)
      → ((a : A) → Keeps (f a))
      → Keeps (lift r >>= f)
  reading-Keeps r f kept = bind-Keeps f kept (lift r) (lift-Keeps r)

  -- Each name but those of the second part.
  load_others-Keeps :
      (cloud : String → Cloud) (region prefix : String)
      → str_eq "JOB_POLL_INTERVAL_SECONDS" k ≡ false
      → str_eq "JWT_SECRET" k ≡ false
      → str_eq "JWT_ALGORITHM" k ≡ false
      → str_eq "AGENT_API_KEY" k ≡ false
      → str_eq "CORS_ORIGINS" k ≡ false
      → Keeps (load_others cloud region prefix)
  unfolding load_others
  load_others-Keeps cloud region prefix n₁ n₂ n₃ n₄ n₅ =
      let param = get_param cloud region prefix in
      let secret = get_secret cloud region prefix in
      reading-Keeps (param "scheduler.poll_interval_seconds") _ λ v₁. setting-Keeps _ v₁ _ n₁ (
        reading-Keeps (secret "auth.jwt_secret") _ λ v₂. setting-Keeps _ v₂ _ n₂ (
          reading-Keeps (param "auth.jwt_algorithm") _ λ v₃. setting-Keeps _ v₃ _ n₃ (
            reading-Keeps (secret "auth.agent_api_key") _ λ v₄.
              setting-Keeps _ v₄ _ n₄
                (reading-Keeps (param "auth.cors_origins") _ λ v₅. setenv-Keeps _ v₅ n₅))))

module _ (cloud : String → Cloud) (region prefix : String) (environ : Dict String) where
  -- `_load_from_aws` raises and leaves the environment as it was, or all five reads of the database's
  -- settings have succeeded, and then DATABASE_URL is the URL of those five and AWS_REGION the
  -- region, whether the reads that follow succeed or raise.
  pub load_from_aws_all_or_nothing :
      let (outcome, environ') = load_from_aws cloud region prefix environ in
      ((e : Exc) × (outcome ≡ err e) × (environ' ≡ environ))
      ⊎ ((d : Database cloud region prefix) × (get? "DATABASE_URL" environ'
            ≡ some (database_url d.user d.password d.host d.port d.name))
          × (get? "AWS_REGION" environ' ≡ some region))
  unfolding load_from_aws Keeps
  load_from_aws_all_or_nothing = elim (load_database_outcome cloud region prefix environ) [
    | inl (e, failed) ↦ inl (e, rw (failed) refl, rw (failed) refl)
    | inr (d, done) ↦
        let url = database_url d.user d.password d.host d.port d.name in
        let written = put "AWS_REGION" region (put "DATABASE_URL" url environ) in
        inr (
          d,
          rw (done) (
              load_others-Keeps "DATABASE_URL" cloud region prefix refl refl refl refl refl written
              ∙ get?-put "AWS_REGION" "DATABASE_URL" region (put "DATABASE_URL" url environ)
              ∙ get?-put "DATABASE_URL" "DATABASE_URL" url environ),
          rw (done) (
              load_others-Keeps "AWS_REGION" cloud region prefix refl refl refl refl refl written
              ∙ get?-put "AWS_REGION" "AWS_REGION" region (put "DATABASE_URL" url environ)),
        )
  ]
