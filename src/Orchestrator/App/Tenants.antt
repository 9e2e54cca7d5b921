-- ===== src/Orchestrator/App/Tenants.antt =====
-- What a request with a token changes: rows of the token's account, and no others.
use turbocat.Prelude.{
  ℕ, String, false, ◌≡◌, ◌≢◌, refl, sym, ap, ◌∙◌, some, List, [], ◌∷◌, ◌++◌, ok, arith, ◌==◌,
  ==_iff, Bool-cases, inl, inr,
}
use turbocat.Orchestrator.Table.{find, replace, find-key, find-replace}
use turbocat.Orchestrator.Models.{Connection, Pipeline, Db}
use turbocat.Orchestrator.Jobs.Status.{pipeline_key}
use turbocat.Orchestrator.Access.{owned, owned_iff}
use turbocat.Orchestrator.Pipelines.{
  connection_key, connection_account, pipeline_account, BulkCreateRequest, get_pipeline,
  bulk_create_pipelines, deactivate_pipeline,
}
use turbocat.Orchestrator.Connections.{
  CreateConnectionRequest, get_connection, create_connection, test_saved_connection,
}
use turbocat.Orchestrator.Auth.{TokenPayload}
use turbocat.Orchestrator.App.Outcomes.{
  create_connection_outcome, test_saved_connection_outcome, list_schema_outcome,
  bulk_create_pipelines_outcome, deactivate_pipeline_outcome,
}
use turbocat.Orchestrator.App.{
  Process, World, Headers, Console, console, post_test, post_connection, get_connections,
  get_pipelines, get_pipeline_of, post_saved_test, get_schema_of, post_bulk, patch_deactivate,
  authorized, serve_console, serve,
}

module _ {ℓ} {A : Type ℓ} (key account : A → ℕ) (a : ℕ) where
  -- The rows of other accounts are where they were, and as they were.
  abbrev pub Spares : List A → List A → Type ℓ
  Spares old new =
      (k : ℕ) (row : A) → find key k old ≡ some row → account row ≢ a → find key k new ≡ some row

  append-Spares : (rows more : List A) → Spares rows (rows ++ more)
  unfolding find
  append-Spares [] more k row h other = cc
  append-Spares (r ∷ rows) more k row h other = ground (arith, h, append-Spares rows more k row)

  replace-Spares :
      (new old : A) (rows : List A)
      → find key (key new) rows ≡ some old
      → account old ≡ a
      → Spares rows (replace key new rows)
  replace-Spares new old rows found own k row h other = elim (Bool-cases (key new == k)) [
    | inl same ↦
        let e = (==_iff (key new) k).0 same in
        let one : find key k rows ≡ some old = ap (λ i. find key i rows) (sym e) ∙ found in
        absurd (other (ground (arith, one, h, own)))
    | inr differs ↦ find-replace key k new old rows found ∙ rw differs h
  ]

  -- A change of a row that the account owns, under the key that it had.
  owned-Spares :
      (detail : String) (k : ℕ) (new row : A) (rows : List A)
      → owned key account detail a k rows ≡ ok row
      → key new ≡ key row
      → Spares rows (replace key new rows)
  owned-Spares detail k new row rows got same =
      let (found, own) = (owned_iff key account detail a k rows row).0 got in
      let id = same ∙ find-key key k rows row found in
      replace-Spares new row rows (ap (λ i. find key i rows) id ∙ found) own

-- Between two databases, for the account.
pub SparesOthers : ℕ → Db → Db → Type 0
SparesOthers a old new =
    Spares connection_key connection_account a old.connections new.connections
    × Spares pipeline_key pipeline_account a old.pipelines new.pipelines
    × (new.agents ≡ old.agents)
    × (new.job_runs ≡ old.job_runs)

module _ (a : ℕ) (db : Db) where
  unchanged : SparesOthers a db db
  unfolding SparesOthers
  unchanged = (λ k row h other. h, λ k row h other. h, refl, refl)

  with_connections :
      (new : List Connection)
      → Spares connection_key connection_account a db.connections new
      → SparesOthers a db (record db { connections = new })
  unfolding SparesOthers
  with_connections new spared = (spared, λ k row h other. h, refl, refl)

  with_pipelines :
      (new : List Pipeline)
      → Spares pipeline_key pipeline_account a db.pipelines new
      → SparesOthers a db (record db { pipelines = new })
  unfolding SparesOthers
  with_pipelines new spared = (λ k row h other. h, spared, refl, refl)

module _ {Config Connector C T Trigger : Type 0} (p : Process Config Connector C T Trigger) where
  create_connection-Spares :
      (a : ℕ) (body : CreateConnectionRequest) (db : Db) (c : C)
      → SparesOthers a db
          (create_connection p.make_config p.make_connector p.test p.manager p.uuid_text
            p.connection_id p.now body a
            (db, c)).1.0
  create_connection-Spares a body db c = elim (create_connection_outcome p a body db c) [
    | inl (e, failed, same) ↦ rw same (unchanged a db)
    | inr (row, _, _, added) ↦ rw added (
        with_connections a db _
          (append-Spares connection_key connection_account a db.connections _))
  ]

  test_saved_connection-Spares :
      (a k : ℕ) (db : Db) (c : C)
      → SparesOthers a db
          (test_saved_connection p.make_config p.make_connector p.test p.manager p.uuid_text p.now k
            a
            (db, c)).1.0
  unfolding get_connection
  test_saved_connection-Spares a k db c = elim (test_saved_connection_outcome p a k db c) [
    | inl (e, failed, same) ↦ rw same (unchanged a db)
    | inr (row, tested, got, key, changed) ↦ rw changed (
        with_connections a db _ (
          owned-Spares connection_key connection_account a "Connection not found" k tested row
            db.connections got key))
  ]

  bulk_create_pipelines-Spares :
      (a : ℕ) (body : BulkCreateRequest) (db : Db) (t : T)
      → SparesOthers a db (bulk_create_pipelines p.cron p.uuid_text p.new_id body a (db, t)).1.0
  bulk_create_pipelines-Spares a body db t =
      elim (bulk_create_pipelines_outcome p.cron p.uuid_text db t p.new_id a body) [
        | inl (e, failed, same) ↦ rw same (unchanged a db)
        | inr (_, _, _, added, _) ↦
            rw added
              (with_pipelines a db _ (append-Spares pipeline_key pipeline_account a db.pipelines _))
      ]

  deactivate_pipeline-Spares :
      (a k : ℕ) (db : Db) (t : T)
      → SparesOthers a db (deactivate_pipeline p.cron p.uuid_text k a (db, t)).1.0
  unfolding get_pipeline
  deactivate_pipeline-Spares a k db t =
      elim (deactivate_pipeline_outcome p.cron p.uuid_text db t a k) [
        | inl (e, failed, same) ↦ rw same (unchanged a db)
        | inr (row, got, _, changed) ↦ rw changed (
            with_pipelines a db _ (
              owned-Spares pipeline_key pipeline_account a "Pipeline not found" k
                (record row { is_active = false }) row db.pipelines got refl))
      ]

  serve_console-Spares :
      (a : ℕ) (request : Console) (w : World C T)
      → SparesOthers a w.db (serve_console p a request w).1.db
  unfolding serve_console
  serve_console-Spares a (post_test source credentials) w = unchanged a w.db
  serve_console-Spares a (post_connection body) w = create_connection-Spares a body w.db w.secrets
  serve_console-Spares a get_connections w = unchanged a w.db
  serve_console-Spares a (post_saved_test k) w = test_saved_connection-Spares a k w.db w.secrets
  serve_console-Spares a (get_schema_of k) w =
      rw (list_schema_outcome p a k w.db w.secrets) (unchanged a w.db)
  serve_console-Spares a (post_bulk body) w = bulk_create_pipelines-Spares a body w.db w.scheduler
  serve_console-Spares a get_pipelines w = unchanged a w.db
  serve_console-Spares a (get_pipeline_of k) w = unchanged a w.db
  serve_console-Spares a (patch_deactivate k) w = deactivate_pipeline-Spares a k w.db w.scheduler

  -- Whatever a request does that carries a valid token: it leaves the connections and the pipelines
  -- of all other accounts, all agents and all jobs as they were.
  pub serve-SparesOthers :
      (headers : Headers) (request : Console) (w : World C T) (token : TokenPayload)
      → authorized p headers ≡ ok token
      → SparesOthers token.account_id w.db (serve p headers (console request) w).1.db
  unfolding serve
  serve-SparesOthers headers request w token valid =
      rw (valid, serve) (serve_console-Spares token.account_id request w)
