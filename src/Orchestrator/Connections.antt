-- ===== src/Orchestrator/Connections.antt =====
-- routes/connections.py. The state is the database and Secrets Manager's; the constructors of the
-- registry's classes and the live test of a connector are parameters.
pub mod Routes
pub mod Listing
use turbocat.Prelude.{
  ℕ, String, Bool, true, false, ◌≡◌, Option, none, some, List, [], ◌∷◌, ◌++◌, map, filter, Result,
  ok, err, Exc, Kind, http_exception, key_error, handle, str_eq, leb, ◌==◌, if◌then◌else◌, ◌>>=◌,
}
use Prim.Native.String.{◌++◌ as append, count}
use turbocat.Prelude.Exec.{Exec}
use turbocat.Python.Dict.{Dict}
use turbocat.Python.Value.{Value, texts}
use turbocat.Connectors.Base.Schema.{TableSchema}
use turbocat.Connectors.Registry.{
  ConnectorClass, ConfigClass, build_from_credentials, get_schemas_for_source,
}
use turbocat.Orchestrator.Table.{replace}
use turbocat.Orchestrator.Models.{Connection, Db}
use turbocat.Orchestrator.Models.ConnectionStatus
use turbocat.Orchestrator.Access.{owned}
use turbocat.Orchestrator.Jobs.Status.{data_error}
use turbocat.Orchestrator.Pipelines.{connection_key, connection_account}
use turbocat.Orchestrator.Secrets.{Manager, put_secret, get_secret}

pub record CreateConnectionRequest : Type 0 where
  pub name : String
  pub source : String
  pub credentials : Dict String

pub record TestConnectionResponse : Type 0 where
  pub success : Bool
  pub error : Option String

abbrev pub http : ℕ → String → Exc
http code text = record { kind = http_exception code; text = text }

abbrev pub is_key_error : Kind → Bool
is_key_error Kind.key_error = true
is_key_error _ = false

abbrev pub response_of : String × Option String → TestConnectionResponse
response_of (status, error) = record {
  success = str_eq status ConnectionStatus.active;
  error = error;
}

-- f"orchestrator/{account_id}/{body.source}"
unfoldable pub secret_ref_of : (ℕ → String) → ℕ → String → String
secret_ref_of uuid_text account_id source =
    append "orchestrator/" (append (uuid_text account_id) (append "/" source))

unfoldable pub get_connection : Db → ℕ → ℕ → Result Connection
unfolding owned
get_connection db connection_id account_id =
    owned connection_key connection_account "Connection not found" account_id connection_id
      db.connections

module _ {Config Connector : Type 0} (make_config : ConfigClass → Dict Value → Result Config)
    (make_connector : ConnectorClass → Config → Result Connector)
    (test : Connector → Result (Unit {0})) where
  -- `_run_test`
  unfoldable pub run_test : String → Dict String → Result (String × Option String)
  run_test source credentials =
      handle
        (do
          connector ← build_from_credentials make_config make_connector source (texts credentials)
          test connector)
        (λ e.
          if is_key_error e.kind
          then err (http 400 e.text)
          else ok (ConnectionStatus.failed, some e.text))
        (λ _. ok (ConnectionStatus.active, none))

  -- POST /test
  unfoldable pub test_connection : String → Dict String → Result TestConnectionResponse
  unfolding run_test
  test_connection source credentials = do r ← run_test source credentials; ok (response_of r)

  module _ {C : Type 0} (manager : Manager C) (uuid_text : ℕ → String) where
    -- `connection_id` and `now` are the new UUID and the time of the INSERT, which refuses a name
    -- that is longer than its column.
    unfoldable pub create_connection :
        ℕ → ℕ → CreateConnectionRequest → ℕ → Exec (Db × C) Connection
    unfolding run_test
    create_connection connection_id now body account_id (db, c) =
        let secret_ref = secret_ref_of uuid_text account_id body.source in
        let (saved, c') = put_secret manager secret_ref body.credentials c in
        elim saved [
          | err e ↦ (err e, (db, c'))
          | ok _ ↦ elim (run_test body.source body.credentials) [
            | err e ↦ (err e, (db, c'))
            | ok (status, _) ↦
                let connection : Connection = record {
                  connection_id = connection_id;
                  account_id = account_id;
                  name = body.name;
                  source = body.source;
                  secret_ref = secret_ref;
                  status = status;
                  last_tested_at = some now;
                  created_at = now;
                } in
                if leb (count body.name) 255
                then (
                  ok connection,
                  (record db { connections = db.connections ++ connection ∷ [] }, c'),
                )
                else (err data_error, (db, c'))
          ]
        ]

    unfoldable pub test_saved_connection : ℕ → ℕ → ℕ → Exec (Db × C) TestConnectionResponse
    unfolding get_connection run_test
    test_saved_connection now connection_id account_id (db, c) =
        elim (get_connection db connection_id account_id) [
          | err e ↦ (err e, (db, c))
          | ok connection ↦
              let (secret, c') = get_secret manager connection.secret_ref c in
              elim secret [
                | err e ↦ (err e, (db, c'))
                | ok credentials ↦ elim (run_test connection.source credentials) [
                  | err e ↦ (err e, (db, c'))
                  | ok (status, error) ↦
                      let tested : Connection = record connection {
                        status = status;
                        last_tested_at = some now;
                      } in
                      (
                        ok (response_of (status, error)),
                        (
                          record db { connections = replace connection_key tested db.connections },
                          c',
                        ),
                      )
                ]
              ]
        ]

    module _ (get_schema : Connector → TableSchema) where
      -- The entries as pairs of connector and table name.
      unfoldable pub list_schema : ℕ → ℕ → Exec (Db × C) (List (String × String))
      unfolding get_connection
      list_schema connection_id account_id (db, c) =
          elim (get_connection db connection_id account_id) [
            | err e ↦ (err e, (db, c))
            | ok connection ↦
                let (secret, c') = get_secret manager connection.secret_ref c in
                elim secret [
                  | err e ↦ (err e, (db, c'))
                  | ok credentials ↦ (
                    handle
                        (get_schemas_for_source make_config make_connector get_schema
                          connection.source (texts credentials))
                        (λ e.
                          err (if is_key_error e.kind then http 400 e.text else http 502 e.text))
                        (λ entries. ok entries),
                    (db, c'),
                  )
                ]
          ]
