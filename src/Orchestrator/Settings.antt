-- ===== src/Orchestrator/Settings.antt =====
-- settings.py, and the origins that main.py makes of one setting. The state is `os.environ`. SSM
-- Parameter Store and Secrets Manager are parameters, as is what pydantic makes of the environment.
pub mod Loaded
pub mod Database
pub mod Imported
use Prim.Native.String.{◌++◌ as append}
use turbocat.Prelude.{
  String, Bool, true, false, ◌≡◌, Option, none, some, List, [], ◌∷◌, Result, ok, err, str_eq,
  if◌then◌else◌,
}
use turbocat.Prelude.Exec.{Exec, pure, lift, modify, ◌>>=◌, ◌>>◌}
use turbocat.Python.Dict.{Dict, get?, put}

-- ssm.get_parameter(Name=…)["Parameter"]["Value"] and sm.get_secret_value(SecretId=…)["SecretString"]
pub record Cloud : Type 0 where
  pub get_parameter : String → Result String
  pub get_secret_value : String → Result String

-- os.getenv(name, default)
unfoldable pub getenv : String → String → Dict String → String
unfolding get?
getenv name default environ = elim (get? name environ) [ none ↦ default | some value ↦ value ]

-- postgresql://{db_user}:{db_pass}@{db_host}:{db_port}/{db_name}
unfoldable pub database_url : String → String → String → String → String → String
database_url user password host port name = append "postgresql://" (
    append user (
      append ":"
        (append password (append "@" (append host (append ":" (append port (append "/" name))))))))

-- os.environ[name] = value
abbrev pub setenv : String → String → Exec (Dict String) (Unit {0})
setenv name value = modify (put name value)

module _ (cloud : String → Cloud) where
  -- f"{prefix}.{key}"
  abbrev pub key_of : String → String → String
  key_of prefix key = append prefix (append "." key)

  abbrev pub get_param : String → String → String → Result String
  get_param region prefix key = (cloud region).get_parameter (key_of prefix key)

  abbrev pub get_secret : String → String → String → Result String
  get_secret region prefix key = (cloud region).get_secret_value (key_of prefix key)

  -- The five reads for the database, and the first two names.
  unfoldable pub load_database : String → String → Exec (Dict String) (Unit {0})
  unfolding put database_url
  load_database region prefix = do
    db_host ← lift (get_param region prefix "database.host")
    db_port ← lift (get_param region prefix "database.port")
    db_user ← lift (get_param region prefix "database.user")
    db_name ← lift (get_param region prefix "database.name")
    db_pass ← lift (get_secret region prefix "database.password")
    setenv "DATABASE_URL" (database_url db_user db_pass db_host db_port db_name)
    setenv "AWS_REGION" region

  -- The other names, each read and set in turn.
  unfoldable pub load_others : String → String → Exec (Dict String) (Unit {0})
  unfolding put
  load_others region prefix = do
    interval ← lift (get_param region prefix "scheduler.poll_interval_seconds")
    setenv "JOB_POLL_INTERVAL_SECONDS" interval
    jwt_secret ← lift (get_secret region prefix "auth.jwt_secret")
    setenv "JWT_SECRET" jwt_secret
    jwt_algorithm ← lift (get_param region prefix "auth.jwt_algorithm")
    setenv "JWT_ALGORITHM" jwt_algorithm
    agent_api_key ← lift (get_secret region prefix "auth.agent_api_key")
    setenv "AGENT_API_KEY" agent_api_key
    cors_origins ← lift (get_param region prefix "auth.cors_origins")
    setenv "CORS_ORIGINS" cors_origins

  unfoldable pub load_from_aws : String → String → Exec (Dict String) (Unit {0})
  unfolding load_database load_others
  load_from_aws region prefix = do load_database region prefix; load_others region prefix

  -- `if _CONFIG_PROVIDER == "aws":`
  unfoldable pub configure : Exec (Dict String) (Unit {0})
  unfolding load_from_aws getenv
  configure environ =
      if str_eq (getenv "CONFIG_PROVIDER" "local" environ) "aws"
      then load_from_aws (getenv "AWS_REGION" "ap-south-1" environ)
          (getenv "AWS_PARAM_PREFIX" "turbocat" environ) environ
      else (ok tt, environ)

  -- The import of the module: `settings_of` is Settings(), over the environment and the file.
  unfoldable pub import_settings {ℓ} :
      {Settings : Type ℓ} → (Dict String → Result Settings) → Exec (Dict String) Settings
  unfolding configure
  import_settings settings_of = do configure; λ environ. (settings_of environ, environ)
