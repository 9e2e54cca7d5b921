-- ===== src/Orchestrator/Settings/Imported.antt =====
-- What `Settings()` is made of, once the module has been imported.
use turbocat.Prelude.{
  String, true, false, ◌≡◌, refl, sym, ap, ◌∙◌, [], ◌∷◌, ◌++◌, Result, ok, is_ok, arith, str_eq,
  Bool-cases, inl, inr,
}
use turbocat.Prelude.Exec.{continue, run-ok}
use turbocat.Python.Dict.{Dict, get?, put, or_else, get?-put}
use turbocat.Orchestrator.Settings.{
  Cloud, getenv, database_url, load_others, load_from_aws, configure, import_settings,
}
use turbocat.Orchestrator.Settings.Loaded.{
  Database, Others, entries, load_database_outcome, load_others_ok,
}

-- Entries that are set one after the other, the last of the list first.
put_all : Dict String → Dict String → Dict String
put_all [] environ = environ
put_all ((name, value) ∷ rest) environ = put name value (put_all rest environ)

get?-put_all :
    (k : String) (names environ : Dict String)
    → get? k (put_all names environ) ≡ or_else (get? k names) (get? k environ)
unfolding put_all get?
get?-put_all k [] environ = refl
get?-put_all k ((name, value) ∷ rest) environ =
    get?-put name k value (put_all rest environ) ∙ elim (Bool-cases (str_eq name k)) [
      | inl same ↦ rw same refl
      | inr other ↦ rw other (get?-put_all k rest environ)
    ]

module _ (cloud : String → Cloud) where
  -- The seven names with what they are set to.
  abbrev pub seven :
      {region prefix : String}
      → Database cloud region prefix
      → Others cloud region prefix
      → Dict String
  seven {region} d o =
      entries cloud o
      ++ ("AWS_REGION", region)
        ∷ ("DATABASE_URL", database_url d.user d.password d.host d.port d.name)
        ∷ []

  load_from_aws_ok :
      (region prefix : String) (environ : Dict String)
      → is_ok (load_from_aws cloud region prefix environ).0 ≡ true
      → (d : Database cloud region prefix) × (o : Others cloud region prefix) × (load_from_aws cloud
            region prefix environ
          ≡ (ok tt, put_all (seven d o) environ))
  unfolding load_from_aws put_all
  load_from_aws_ok region prefix environ h =
      elim (load_database_outcome cloud region prefix environ) [
        | inl (e, failed) ↦ absurd (ground (arith, failed, h))
        | inr (d, done) ↦
            let url = database_url d.user d.password d.host d.port d.name in
            let written = put "AWS_REGION" region (put "DATABASE_URL" url environ) in
            let returns : is_ok (load_others cloud region prefix written).0 ≡ true =
              ground (arith, done, h) in
            let (o, rest) = load_others_ok cloud region prefix written returns in
            (
              d,
              o,
              ap (λ out. continue out.0 (λ _. load_others cloud region prefix) out.1) done ∙ rest,
            )
      ]

  configure_local :
      (environ : Dict String)
      → str_eq (getenv "CONFIG_PROVIDER" "local" environ) "aws" ≡ false
      → configure cloud environ ≡ (ok tt, environ)
  unfolding configure
  configure_local environ local = rw (local, configure) refl

  configure_aws :
      (environ : Dict String)
      → let region = getenv "AWS_REGION" "ap-south-1" environ in
        let prefix = getenv "AWS_PARAM_PREFIX" "turbocat" environ in
        str_eq (getenv "CONFIG_PROVIDER" "local" environ) "aws" ≡ true
        → is_ok (configure cloud environ).0 ≡ true
        → (d : Database cloud region prefix) × (o : Others cloud region prefix) × (configure cloud
              environ
            ≡ (ok tt, put_all (seven d o) environ))
  unfolding configure
  configure_aws environ aws h =
      let region = getenv "AWS_REGION" "ap-south-1" environ in
      let prefix = getenv "AWS_PARAM_PREFIX" "turbocat" environ in
      let same : configure cloud environ ≡ load_from_aws cloud region prefix environ =
        rw (aws, configure) refl in
      let returns : is_ok (load_from_aws cloud region prefix environ).0 ≡ true =
        ap (λ (out : Result (Unit {0}) × Dict String). is_ok out.0) (sym same) ∙ h in
      let (d, o, done) = load_from_aws_ok region prefix environ returns in (d, o, same ∙ done)

  configured :
      {Settings : Type 0} (settings_of : Dict String → Result Settings) (environ : Dict String)
      (settings : Settings)
      → (import_settings cloud settings_of environ).0 ≡ ok settings
      → is_ok (configure cloud environ).0 ≡ true
  unfolding import_settings
  configured settings_of environ settings h =
      let (u, done, _) = run-ok (configure cloud) _ environ h in rw done refl

  -- Of an import that returns settings: they are what `Settings()` makes of the environment that the
  -- import leaves. Where CONFIG_PROVIDER is "aws", Parameter Store and Secrets Manager held all ten
  -- values under the prefix, and that environment has the seven names made of them and of the
  -- region, and every other name as before; otherwise it is the environment as it was.
  pub import_settings_ok :
      {Settings : Type 0} (settings_of : Dict String → Result Settings) (environ : Dict String)
      (settings : Settings)
      → (import_settings cloud settings_of environ).0 ≡ ok settings
      → let environ' = (import_settings cloud settings_of environ).1 in
        let region = getenv "AWS_REGION" "ap-south-1" environ in
        let prefix = getenv "AWS_PARAM_PREFIX" "turbocat" environ in
        (settings_of environ' ≡ ok settings)
        × ((str_eq (getenv "CONFIG_PROVIDER" "local" environ) "aws" ≡ true)
            → (d : Database cloud region prefix) × (o : Others cloud region prefix) × ((k : String)
                → get? k environ' ≡ or_else (get? k (seven d o)) (get? k environ)))
        × ((str_eq (getenv "CONFIG_PROVIDER" "local" environ) "aws" ≡ false) → environ' ≡ environ)
  unfolding import_settings
  import_settings_ok settings_of environ settings h =
      let aws_named = str_eq (getenv "CONFIG_PROVIDER" "local" environ) "aws" in
      elim (Bool-cases aws_named) [
        | inr local ↦
            let done = configure_local environ local in
            let read : settings_of environ ≡ ok settings = ground (arith, done, h) in
            rw (done, import_settings) (read, λ aws. absurd (ground (arith, local, aws)), λ _. refl)
        | inl aws ↦
            let (d, o, done) =
              configure_aws environ aws (configured settings_of environ settings h) in
            let read : settings_of (put_all (seven d o) environ) ≡ ok settings =
              ground (arith, done, h) in
            rw (done, import_settings)
              (
                read,
                λ _. (d, o, λ k. get?-put_all k (seven d o) environ),
                λ local. absurd (ground (arith, local, aws)),
              )
      ]
