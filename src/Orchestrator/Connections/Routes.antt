-- ===== src/Orchestrator/Connections/Routes.antt =====
-- What the routes for connections save and change.
use turbocat.Prelude.{
  ℕ, String, true, ◌≡◌, refl, none, Result, ok, err, is_ok, Exc, http_exception, arith, leb,
  Result-cases, Bool-cases, inl, inr,
}
use Prim.Native.String.{count}
use turbocat.Python.Dict.{Dict, get?}
use turbocat.Python.Value.{Value}
use turbocat.Connectors.Registry.{
  ConnectorClass, ConfigClass, source_registry, build_from_credentials,
}
use turbocat.Orchestrator.Models.{Connection, Db}
use turbocat.Orchestrator.Secrets.{Manager, Lawful, IsJson, put_secret, get_secret}
use turbocat.Orchestrator.Secrets.RoundTrip.{get_secret-put_secret}
use turbocat.Orchestrator.Connections.{
  CreateConnectionRequest, secret_ref_of, run_test, create_connection,
}

module _ {Config Connector : Type 0} (make_config : ConfigClass → Dict Value → Result Config)
    (make_connector : ConnectorClass → Config → Result Connector)
    (test : Connector → Result (Unit {0})) where
  run_test_unknown :
      (source : String) (credentials : Dict String)
      → get? source source_registry ≡ none
      → (e : Exc) × (run_test make_config make_connector test source credentials ≡ err e)
        × (e.kind ≡ http_exception 400)
  unfolding run_test build_from_credentials
  run_test_unknown source credentials h = (
    record { kind = http_exception 400; text = source },
    rw (h, run_test, build_from_credentials) refl,
    refl,
  )

  module _ {C : Type 0} (manager : Manager C) (uuid_text : ℕ → String) where
    -- A request for a source that the registry does not know, whose credentials could be saved,
    -- ends with status 400 and adds no connection; the credentials stay saved.
    pub create_connection_unknown_source :
        (connection_id now account_id : ℕ) (body : CreateConnectionRequest) (db : Db) (c : C)
        → get? body.source source_registry ≡ none
        → is_ok
            (put_secret manager
              (secret_ref_of uuid_text account_id body.source)
              body.credentials
              c).0
          ≡ true
        → let (answer, (db', c')) =
            create_connection make_config make_connector test manager uuid_text connection_id now
              body account_id
              (db, c) in
          ((e : Exc) × (answer ≡ err e) × (e.kind ≡ http_exception 400))
          × (db' ≡ db)
          × (c'
              ≡ (put_secret manager
                  (secret_ref_of uuid_text account_id body.source)
                  body.credentials
                  c).1)
    unfolding create_connection
    create_connection_unknown_source connection_id now account_id body db c unknown saved =
        let (e, refused, code) = run_test_unknown body.source body.credentials unknown in
        elim (Result-cases
          (put_secret manager (secret_ref_of uuid_text account_id body.source) body.credentials
            c).0) [
              | inr (e', failed) ↦ absurd (ground arith)
              | inl (_, put) ↦ rw (put, refused, create_connection) ((e, refl, code), refl, refl)
            ]

    -- Over a lawful Secrets Manager, with credentials that JSON writes and reads back: where a
    -- connection is created, the credentials of the request are what the secret of every
    -- connection of that account and source gives right after it, that of an earlier connection
    -- too.
    pub create_connection_secret :
        (lawful : Lawful manager) (connection_id now account_id : ℕ)
        (body : CreateConnectionRequest) (db : Db) (c : C) (earlier : Connection)
        (json : IsJson manager body.credentials)
        → earlier.secret_ref ≡ secret_ref_of uuid_text account_id body.source
        → let (answer, (_, c')) =
            create_connection make_config make_connector test manager uuid_text connection_id now
              body account_id
              (db, c) in
          is_ok answer ≡ true → (get_secret manager earlier.secret_ref c').0 ≡ ok body.credentials
    unfolding create_connection
    create_connection_secret lawful connection_id now account_id body db c earlier json same
          accepted =
        let ref = secret_ref_of uuid_text account_id body.source in
        elim (Result-cases (put_secret manager ref body.credentials c).0) [
          | inr (e, failed) ↦ absurd (ground arith)
          | inl (_, put) ↦
              elim (Result-cases
                (run_test make_config make_connector test body.source body.credentials)) [
                  | inr (e, refused) ↦ absurd (ground arith)
                  | inl (r, tested) ↦
                      let read =
                        get_secret-put_secret manager lawful ref body.credentials c json
                          (rw put refl) in
                      elim (Bool-cases (leb (count body.name) 255)) [
                        | inl fits ↦ rw (same, put, tested, create_connection, fits) read
                        | inr long ↦ absurd (ground arith)
                      ]
                ]
        ]
