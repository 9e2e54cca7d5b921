-- ===== src/Orchestrator/App/Outcomes.antt =====
-- How the handlers that change a table end: each with the tables as they were, or with one change.
use turbocat.Prelude.{
  some, false, ℕ, String, ◌≡◌, ◌⊎◌, refl, List, [], ◌∷◌, ◌++◌, Result, ok, err, Exc, leb,
  Result-cases, Bool-cases, inl, inr, ok_inj, sym,
}
use Prim.Native.String.{count}
use turbocat.Orchestrator.Table.{replace}
use turbocat.Orchestrator.Models.{Connection, Pipeline, Db}
use turbocat.Orchestrator.Jobs.Status.{data_error, pipeline_key}
use turbocat.Orchestrator.Access.{owned}
use turbocat.Orchestrator.Scheduler.{Cron}
use turbocat.Orchestrator.Pipelines.{
  BulkCreateRequest, connection_key, connection_account, insertable, new_pipelines, register_each,
  get_pipeline, bulk_create_pipelines, deactivate_pipeline,
}
use turbocat.Orchestrator.Secrets.{put_secret, get_secret}
use turbocat.Orchestrator.Connections.{
  CreateConnectionRequest, get_connection, secret_ref_of, run_test, create_connection,
  test_saved_connection, list_schema,
}
use turbocat.Orchestrator.App.{Process}

-- An error, and nothing written.
abbrev pub Refused : {A : Type 0} → Result A → Db → Db → Type 0
Refused answer db db' = (e : Exc) × (answer ≡ err e) × (db' ≡ db)

module _ {Config Connector C T Trigger : Type 0} (p : Process Config Connector C T Trigger) where
  pub create_connection_outcome :
      (a : ℕ) (body : CreateConnectionRequest) (db : Db) (c : C)
      → let (answer, (db', _)) =
          create_connection p.make_config p.make_connector p.test p.manager p.uuid_text
            p.connection_id p.now body a
            (db, c) in
        Refused answer db db'
        ⊎ ((row : Connection) × (answer ≡ ok row)
            × (row.account_id ≡ a)
            × (db' ≡ record db { connections = db.connections ++ row ∷ [] }))
  unfolding create_connection
  create_connection_outcome a body db c =
      let ref = secret_ref_of p.uuid_text a body.source in
      elim (Result-cases (put_secret p.manager ref body.credentials c).0) [
        | inr (e, failed) ↦
            inl (e, rw (failed, create_connection) refl, rw (failed, create_connection) refl)
        | inl (u, saved) ↦
            elim (Result-cases
              (run_test p.make_config p.make_connector p.test body.source body.credentials)) [
                | inr (e, failed) ↦ inl (
                  e,
                  rw (saved, failed, create_connection) refl,
                  rw (saved, failed, create_connection) refl,
                )
                | inl (outcome, done) ↦ elim (Bool-cases (leb (count body.name) 255)) [
                  | inl fits ↦
                      let row : Connection = record {
                        connection_id = p.connection_id;
                        account_id = a;
                        name = body.name;
                        source = body.source;
                        secret_ref = ref;
                        status = outcome.0;
                        last_tested_at = some p.now;
                        created_at = p.now;
                      } in
                      inr (
                        row,
                        rw (saved, done, fits, create_connection) refl,
                        refl,
                        rw (saved, done, fits, create_connection) refl,
                      )
                  | inr long ↦ inl (
                    data_error,
                    rw (saved, done, long, create_connection) refl,
                    rw (saved, done, long, create_connection) refl,
                  )
                ]
              ]
      ]

  pub test_saved_connection_outcome :
      (a k : ℕ) (db : Db) (c : C)
      → let (answer, (db', _)) =
          test_saved_connection p.make_config p.make_connector p.test p.manager p.uuid_text p.now k
            a
            (db, c) in
        Refused answer db db'
        ⊎ ((row tested : Connection) × (get_connection db k a ≡ ok row)
            × (tested.connection_id ≡ row.connection_id)
            × (db' ≡ record db { connections = replace connection_key tested db.connections }))
  unfolding test_saved_connection
  test_saved_connection_outcome a k db c = elim (Result-cases (get_connection db k a)) [
    | inr (e, failed) ↦
        inl (e, rw (failed, test_saved_connection) refl, rw (failed, test_saved_connection) refl)
    | inl (row, got) ↦ elim (Result-cases (get_secret p.manager row.secret_ref c).0) [
      | inr (e, failed) ↦ inl (
        e,
        rw (got, failed, test_saved_connection) refl,
        rw (got, failed, test_saved_connection) refl,
      )
      | inl (credentials, read) ↦
          elim (Result-cases
            (run_test p.make_config p.make_connector p.test row.source credentials)) [
              | inr (e, failed) ↦ inl (
                e,
                rw (got, read, failed, test_saved_connection) refl,
                rw (got, read, failed, test_saved_connection) refl,
              )
              | inl ((status, error), done) ↦
                  let tested : Connection = record row {
                    status = status;
                    last_tested_at = some p.now;
                  } in
                  inr (row, tested, got, refl, rw (got, read, done, test_saved_connection) refl)
            ]
    ]
  ]

  pub list_schema_outcome :
      (a k : ℕ) (db : Db) (c : C)
      → (list_schema p.make_config p.make_connector p.test p.manager p.uuid_text p.get_schema k a
          (db, c)).1.0
        ≡ db
  unfolding list_schema
  list_schema_outcome a k db c = elim (Result-cases (get_connection db k a)) [
    | inr (e, failed) ↦ rw (failed, list_schema) refl
    | inl (row, got) ↦ elim (Result-cases (get_secret p.manager row.secret_ref c).0) [
      | inr (e, failed) ↦ rw (got, failed, list_schema) refl
      | inl (credentials, read) ↦ rw (got, read, list_schema) refl
    ]
  ]

module _ {T Trigger : Type 0} (cron : Cron T Trigger) (uuid_text : ℕ → String) (db : Db)
    (t : T) where
  pub bulk_create_pipelines_outcome :
      (new_id : ℕ → ℕ) (a : ℕ) (body : BulkCreateRequest)
      → let (answer, (db', _)) = bulk_create_pipelines cron uuid_text new_id body a (db, t) in
        let new = new_pipelines new_id a body 0 body.tables in
        Refused answer db db'
        ⊎ ((connection : Connection) × (owned connection_key connection_account
                "Connection not found" a body.connection_id db.connections
              ≡ ok connection)
            × (insertable body db ≡ ok tt)
            × (db' ≡ record db { pipelines = db.pipelines ++ new })
            × ((ps : List Pipeline) → answer ≡ ok ps → ps ≡ new))
  unfolding bulk_create_pipelines
  bulk_create_pipelines_outcome new_id a body =
      elim (Result-cases (
        owned connection_key connection_account "Connection not found" a body.connection_id
          db.connections)) [
            | inr (e, failed) ↦ inl (
              e,
              rw (failed, bulk_create_pipelines) refl,
              rw (failed, bulk_create_pipelines) refl,
            )
            | inl (connection, got) ↦ elim (Result-cases (insertable body db)) [
              | inr (e, failed) ↦ inl (
                e,
                rw (got, failed, bulk_create_pipelines) refl,
                rw (got, failed, bulk_create_pipelines) refl,
              )
              | inl (u, fine) ↦
                  let new = new_pipelines new_id a body 0 body.tables in
                  elim (Result-cases (register_each cron uuid_text new t).0) [
                    | inr (e, failed) ↦ inr (
                      connection,
                      got,
                      fine,
                      rw (got, fine, failed, bulk_create_pipelines) refl,
                      rw (got, fine, failed, bulk_create_pipelines) (λ ps h. cc),
                    )
                    | inl (u, registered) ↦ inr (
                      connection,
                      got,
                      fine,
                      rw (got, fine, registered, bulk_create_pipelines) refl,
                      rw (got, fine, registered, bulk_create_pipelines) (λ ps h. sym (ok_inj h)),
                    )
                  ]
            ]
          ]

  pub deactivate_pipeline_outcome :
      (a k : ℕ)
      → let (answer, (db', _)) = deactivate_pipeline cron uuid_text k a (db, t) in
        Refused answer db db'
        ⊎ ((row : Pipeline) × (get_pipeline db k a ≡ ok row)
            × (answer ≡ ok (record row { is_active = false }))
            × (db' ≡ record db {
              pipelines = replace pipeline_key (record row { is_active = false }) db.pipelines;
            }))
  unfolding deactivate_pipeline
  deactivate_pipeline_outcome a k = elim (Result-cases (get_pipeline db k a)) [
    | inr (e, failed) ↦
        inl (e, rw (failed, deactivate_pipeline) refl, rw (failed, deactivate_pipeline) refl)
    | inl (row, got) ↦
        inr (row, got, rw (got, deactivate_pipeline) refl, rw (got, deactivate_pipeline) refl)
  ]
