-- ===== src/Orchestrator/App/Answers.antt =====
-- What a request with a token is told: rows of the token's account, and no others.
use turbocat.Prelude.{
  ◌>>=◌, ℕ, ◌+◌, ◌≡◌, refl, List, [], ◌∷◌, filter, Result, ok, err, All, leb, ◌==◌, ==_iff,
  Result-cases, Bool-cases, inl, inr,
}
use turbocat.Orchestrator.Models.{Connection, Pipeline, Db}
use turbocat.Orchestrator.Access.{owned_iff}
use turbocat.Orchestrator.Jobs.Status.{pipeline_key}
use turbocat.Orchestrator.Connections.{CreateConnectionRequest, create_connection}
use turbocat.Orchestrator.Connections.Listing.{newest_first, by_created_at, list_connections}
use turbocat.Orchestrator.Pipelines.{
  BulkCreateRequest, PipelineTableConfig, connection_account, pipeline_account, new_pipelines,
  get_pipeline, list_pipelines, bulk_create_pipelines, deactivate_pipeline,
}
use turbocat.Orchestrator.Auth.{TokenPayload}
use turbocat.Orchestrator.App.Outcomes.{
  create_connection_outcome, bulk_create_pipelines_outcome, deactivate_pipeline_outcome,
}
use turbocat.Orchestrator.App.{
  Process, World, Headers, Response, Console, console, tested, one_connection, connections, entries,
  one_pipeline, pipelines, post_test, post_connection, get_connections, post_saved_test,
  get_schema_of, post_bulk, get_pipelines, get_pipeline_of, patch_deactivate, authorized,
  serve_console, serve,
}
use turbocat.Orchestrator.App.Tenants.{SparesOthers, serve-SparesOthers}

-- The rows that a response holds belong to the account.
abbrev pub IsOwn : ℕ → Response → Type 0
IsOwn a (one_connection c) = c.account_id ≡ a
IsOwn a (connections cs) = All (λ (c : Connection). c.account_id ≡ a) cs
IsOwn a (one_pipeline p) = p.account_id ≡ a
IsOwn a (pipelines ps) = All (λ (p : Pipeline). p.account_id ≡ a) ps
IsOwn a _ = Unit

-- An answer, if it is no error.
pub Answers : ℕ → Result Response → Type 0
Answers a (ok r) = IsOwn a r
Answers a (err e) = Unit

module _ {ℓ} {A : Type ℓ} (account : A → ℕ) (a : ℕ) where
  filter-own :
      (rows : List A) → All (λ row. account row ≡ a) (filter (λ row. account row == a) rows)
  filter-own [] = tt
  filter-own (r ∷ rows) = elim (Bool-cases (account r == a)) [
    | inl mine ↦ rw mine ((==_iff (account r) a).0 mine, filter-own rows)
    | inr other ↦ rw other (filter-own rows)
  ]

newest_first-own :
    (a : ℕ) (c : Connection) (cs : List Connection)
    → c.account_id ≡ a
    → All (λ (d : Connection). d.account_id ≡ a) cs
    → All (λ (d : Connection). d.account_id ≡ a) (newest_first c cs)
unfolding newest_first
newest_first-own a c [] h hs = (h, tt)
newest_first-own a c (d ∷ ds) h hs = elim (Bool-cases (leb d.created_at c.created_at)) [
  | inl late ↦ rw late (h, hs)
  | inr early ↦ rw early (hs.0, newest_first-own a c ds h hs.1)
]

by_created_at-own :
    (a : ℕ) (cs : List Connection)
    → All (λ (d : Connection). d.account_id ≡ a) cs
    → All (λ (d : Connection). d.account_id ≡ a) (by_created_at cs)
unfolding by_created_at
by_created_at-own a [] h = tt
by_created_at-own a (c ∷ cs) h =
    newest_first-own a c (by_created_at cs) h.0 (by_created_at-own a cs h.1)

new_pipelines-own :
    (new_id : ℕ → ℕ) (a : ℕ) (body : BulkCreateRequest) (i : ℕ) (tables : List PipelineTableConfig)
    → All (λ (p : Pipeline). p.account_id ≡ a) (new_pipelines new_id a body i tables)
unfolding new_pipelines
new_pipelines-own new_id a body i [] = tt
new_pipelines-own new_id a body i (t ∷ ts) = (refl, new_pipelines-own new_id a body (i + 1) ts)

module _ {Config Connector C T Trigger : Type 0} (p : Process Config Connector C T Trigger) where
  -- Both branches of a handler whose response holds no row.
  rowless :
      {A : Type 0} (a : ℕ) (respond : A → Response) (r : Result A)
      → ((x : A) → IsOwn a (respond x))
      → Answers a (do x ← r; ok (respond x))
  unfolding Answers
  rowless a respond (err e) h = tt
  rowless a respond (ok x) h = h x

  create_connection-Answers :
      (a : ℕ) (body : CreateConnectionRequest) (db : Db) (c : C)
      → Answers a (do
        x ←
            (create_connection p.make_config p.make_connector p.test p.manager p.uuid_text
              p.connection_id p.now body a
              (db, c)).0
        ok (one_connection x))
  unfolding Answers
  create_connection-Answers a body db c = elim (create_connection_outcome p a body db c) [
    | inl (e, failed, _) ↦ rw failed tt
    | inr (row, made, own, _) ↦ rw made own
  ]

  bulk_create_pipelines-Answers :
      (a : ℕ) (body : BulkCreateRequest) (db : Db) (t : T)
      → Answers a (do
        x ← (bulk_create_pipelines p.cron p.uuid_text p.new_id body a (db, t)).0
        ok (pipelines x))
  unfolding Answers
  bulk_create_pipelines-Answers a body db t =
      elim (Result-cases (bulk_create_pipelines p.cron p.uuid_text p.new_id body a (db, t)).0) [
        | inr (e, failed) ↦ rw failed tt
        | inl (ps, made) ↦
            elim (bulk_create_pipelines_outcome p.cron p.uuid_text db t p.new_id a body) [
              | inl (e, failed, _) ↦ rw failed tt
              | inr (_, _, _, _, given) ↦
                  rw (made, given ps made) (new_pipelines-own p.new_id a body 0 body.tables)
            ]
      ]

  get_pipeline-Answers :
      (a k : ℕ) (db : Db) → Answers a (do x ← get_pipeline db k a; ok (one_pipeline x))
  unfolding get_pipeline Answers
  get_pipeline-Answers a k db = elim (Result-cases (get_pipeline db k a)) [
    | inr (e, failed) ↦ rw failed tt
    | inl (row, got) ↦
        rw got
          ((owned_iff pipeline_key pipeline_account "Pipeline not found" a k db.pipelines row).0
            got).1
  ]

  deactivate_pipeline-Answers :
      (a k : ℕ) (db : Db) (t : T)
      → Answers a
          (do x ← (deactivate_pipeline p.cron p.uuid_text k a (db, t)).0; ok (one_pipeline x))
  unfolding Answers get_pipeline
  deactivate_pipeline-Answers a k db t =
      elim (deactivate_pipeline_outcome p.cron p.uuid_text db t a k) [
        | inl (e, failed, _) ↦ rw failed tt
        | inr (row, got, made, _) ↦
            rw made
              ((owned_iff pipeline_key pipeline_account "Pipeline not found" a k db.pipelines row).0
                got).1
      ]

  serve_console-Answers :
      (a : ℕ) (request : Console) (w : World C T) → Answers a (serve_console p a request w).0
  unfolding serve_console Answers list_connections list_pipelines
  serve_console-Answers a (post_test source credentials) w = rowless a tested _ (λ x. tt)
  serve_console-Answers a (post_connection body) w = create_connection-Answers a body w.db w.secrets
  serve_console-Answers a get_connections w =
      by_created_at-own a _ (filter-own connection_account a w.db.connections)
  serve_console-Answers a (post_saved_test k) w = rowless a tested _ (λ x. tt)
  serve_console-Answers a (get_schema_of k) w = rowless a entries _ (λ x. tt)
  serve_console-Answers a (post_bulk body) w = bulk_create_pipelines-Answers a body w.db w.scheduler
  serve_console-Answers a get_pipelines w = filter-own pipeline_account a w.db.pipelines
  serve_console-Answers a (get_pipeline_of k) w = get_pipeline-Answers a k w.db
  serve_console-Answers a (patch_deactivate k) w = deactivate_pipeline-Answers a k w.db w.scheduler

  -- Whatever a request does that carries a valid token: it leaves the connections and the pipelines
  -- of all other accounts, all agents and all jobs as they were, and every connection and every
  -- pipeline in its answer belongs to the token's account.
  pub serve_isolated :
      (headers : Headers) (request : Console) (w : World C T) (token : TokenPayload)
      → authorized p headers ≡ ok token
      → SparesOthers token.account_id w.db (serve p headers (console request) w).1.db
        × Answers token.account_id (serve p headers (console request) w).0
  unfolding serve
  serve_isolated headers request w token valid = (
    serve-SparesOthers p headers request w token valid,
    rw (valid, serve) (serve_console-Answers token.account_id request w),
  )
