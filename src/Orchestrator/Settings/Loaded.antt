-- ===== src/Orchestrator/Settings/Loaded.antt =====
-- The environment after `_load_from_aws`.
use turbocat.Prelude.{
  String, true, ◌≡◌, ◌⊎◌, refl, [], ◌∷◌, ok, err, is_ok, Exc, arith, Result-cases, inl, inr,
}
use turbocat.Python.Dict.{Dict, put}
use turbocat.Orchestrator.Settings.{
  Cloud, database_url, get_param, get_secret, load_database, load_others,
}

module _ (cloud : String → Cloud) where
  -- What Parameter Store and Secrets Manager hold for the program.
  pub record Database (region prefix : String) : Type 0 where
    pub host : String
    pub port : String
    pub user : String
    pub name : String
    pub password : String
    pub has_host : get_param cloud region prefix "database.host" ≡ ok host
    pub has_port : get_param cloud region prefix "database.port" ≡ ok port
    pub has_user : get_param cloud region prefix "database.user" ≡ ok user
    pub has_name : get_param cloud region prefix "database.name" ≡ ok name
    pub has_password : get_secret cloud region prefix "database.password" ≡ ok password

  pub record Others (region prefix : String) : Type 0 where
    pub interval : String
    pub jwt_secret : String
    pub jwt_algorithm : String
    pub agent_api_key : String
    pub cors_origins : String
    pub has_interval : get_param cloud region prefix "scheduler.poll_interval_seconds" ≡ ok interval
    pub has_jwt_secret : get_secret cloud region prefix "auth.jwt_secret" ≡ ok jwt_secret
    pub has_jwt_algorithm : get_param cloud region prefix "auth.jwt_algorithm" ≡ ok jwt_algorithm
    pub has_agent_api_key : get_secret cloud region prefix "auth.agent_api_key" ≡ ok agent_api_key
    pub has_cors_origins : get_param cloud region prefix "auth.cors_origins" ≡ ok cors_origins

  module _ (region prefix : String) (environ : Dict String) where
    -- The database part writes both of its names or nothing.
    pub load_database_outcome :
        ((e : Exc) × (load_database cloud region prefix environ ≡ (err e, environ)))
        ⊎ ((d : Database region prefix) × (load_database cloud region prefix environ ≡ (
          ok tt,
          put "AWS_REGION" region
              (put "DATABASE_URL" (database_url d.user d.password d.host d.port d.name) environ),
        )))
    unfolding load_database
    load_database_outcome = elim (Result-cases (get_param cloud region prefix "database.host")) [
      | inr (e, h) ↦ inl (e, rw (h, load_database) refl)
      | inl (host, h₁) ↦ elim (Result-cases (get_param cloud region prefix "database.port")) [
        | inr (e, h) ↦ inl (e, rw (h₁, h, load_database) refl)
        | inl (port, h₂) ↦ elim (Result-cases (get_param cloud region prefix "database.user")) [
          | inr (e, h) ↦ inl (e, rw (h₁, h₂, h, load_database) refl)
          | inl (user, h₃) ↦ elim (Result-cases (get_param cloud region prefix "database.name")) [
            | inr (e, h) ↦ inl (e, rw (h₁, h₂, h₃, h, load_database) refl)
            | inl (name, h₄) ↦
                elim (Result-cases (get_secret cloud region prefix "database.password")) [
                  | inr (e, h) ↦ inl (e, rw (h₁, h₂, h₃, h₄, h, load_database) refl)
                  | inl (password, h₅) ↦ inr (
                    record {
                      host = host;
                      port = port;
                      user = user;
                      name = name;
                      password = password;
                      has_host = h₁;
                      has_port = h₂;
                      has_user = h₃;
                      has_name = h₄;
                      has_password = h₅;
                    },
                    rw (h₁, h₂, h₃, h₄, h₅, load_database) refl,
                  )
                ]
          ]
        ]
      ]
    ]

  -- The names that the second part writes.
  abbrev pub entries : {region prefix : String} → Others region prefix → Dict String
  entries o =
      ("CORS_ORIGINS", o.cors_origins)
      ∷ ("AGENT_API_KEY", o.agent_api_key)
      ∷ ("JWT_ALGORITHM", o.jwt_algorithm)
      ∷ ("JWT_SECRET", o.jwt_secret)
      ∷ ("JOB_POLL_INTERVAL_SECONDS", o.interval)
      ∷ []

  module _ (region prefix : String) (environ : Dict String) where
    pub load_others_ok :
        is_ok (load_others cloud region prefix environ).0 ≡ true
        → (o : Others region prefix) × (load_others cloud region prefix environ ≡ (
          ok tt,
          put "CORS_ORIGINS" o.cors_origins (
              put "AGENT_API_KEY" o.agent_api_key (
                put "JWT_ALGORITHM" o.jwt_algorithm (
                  put "JWT_SECRET" o.jwt_secret
                    (put "JOB_POLL_INTERVAL_SECONDS" o.interval environ)))),
        ))
    unfolding load_others
    load_others_ok h =
        elim (Result-cases (get_param cloud region prefix "scheduler.poll_interval_seconds")) [
          | inr (e, x) ↦ absurd (ground (arith, x, h))
          | inl (interval, h₁) ↦
              elim (Result-cases (get_secret cloud region prefix "auth.jwt_secret")) [
                | inr (e, x) ↦ absurd (ground (arith, h₁, x, h))
                | inl (jwt_secret, h₂) ↦
                    elim (Result-cases (get_param cloud region prefix "auth.jwt_algorithm")) [
                      | inr (e, x) ↦ absurd (ground (arith, h₁, h₂, x, h))
                      | inl (jwt_algorithm, h₃) ↦
                          elim (Result-cases
                            (get_secret cloud region prefix "auth.agent_api_key")) [
                              | inr (e, x) ↦ absurd (ground (arith, h₁, h₂, h₃, x, h))
                              | inl (agent_api_key, h₄) ↦
                                  elim (Result-cases
                                    (get_param cloud region prefix "auth.cors_origins")) [
                                      | inr (e, x) ↦ absurd (ground (arith, h₁, h₂, h₃, h₄, x, h))
                                      | inl (cors_origins, h₅) ↦ (
                                        record {
                                          interval = interval;
                                          jwt_secret = jwt_secret;
                                          jwt_algorithm = jwt_algorithm;
                                          agent_api_key = agent_api_key;
                                          cors_origins = cors_origins;
                                          has_interval = h₁;
                                          has_jwt_secret = h₂;
                                          has_jwt_algorithm = h₃;
                                          has_agent_api_key = h₄;
                                          has_cors_origins = h₅;
                                        },
                                        rw (h₁, h₂, h₃, h₄, h₅, load_others) refl,
                                      )
                                    ]
                            ]
                    ]
              ]
        ]
