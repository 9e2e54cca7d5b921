-- ===== src/Orchestrator/Lifespan/Startup.antt =====
-- When the program starts, and a request after which it does not start again.
use turbocat.Prelude.{
  ℕ, String, true, false, ◌≡◌, ◌↔◌, refl, subst, none, [], ◌∷◌, ◌++◌, All, ok, err, is_ok, Exc,
  arith, Result-cases, inl, inr,
}
use turbocat.Orchestrator.Models.{Connection, Db}
use turbocat.Orchestrator.Access.{owned}
use turbocat.Orchestrator.Jobs.Status.{pipeline_key}
use turbocat.Orchestrator.Scheduler.{Lawful, active, load_schedules}
use turbocat.Orchestrator.Scheduler.Schedules.{IsScheduled, load_schedules-IsScheduled}
use turbocat.Orchestrator.Pipelines.{
  PipelineTableConfig, BulkCreateRequest, connection_key, connection_account, new_pipelines,
  insertable, bulk_create_pipelines,
}
use turbocat.Orchestrator.Pipelines.Routes.{bulk_create_bad_schedule}
use turbocat.Orchestrator.App.{Process, World}
use turbocat.Orchestrator.Lifespan.{Moment, IsFresh, off, up, startup}
use turbocat.Orchestrator.Lifespan.Keys.{Distinct, added-Distinct}
use turbocat.Orchestrator.Lifespan.Fresh.{
  not_true, last_kept, Distinct-filter, load_all_iff, all-IsMissing,
}

module _ {Config Connector C T Trigger : Type 0} (p : Process Config Connector C T Trigger)
    (started : T) (lawful : Lawful p.cron)
    (injective : (i j : ℕ) → p.uuid_text i ≡ p.uuid_text j → i ≡ j)
    (empty : (k : String) → p.cron.get_job k started ≡ none) where
  load_schedules_iff :
      (db : Db)
      → Distinct pipeline_key db.pipelines
      → (is_ok (load_schedules p.cron p.uuid_text db started).0 ≡ true)
        ↔ All
            (λ q. is_ok (p.cron.from_crontab q.schedule) ≡ true)
            (active p.cron p.uuid_text db.pipelines)
  unfolding load_schedules
  load_schedules_iff db distinct =
      let rows = active p.cron p.uuid_text db.pipelines in
      load_all_iff p.cron p.uuid_text lawful injective rows started
        (Distinct-filter pipeline_key (λ q. q.is_active) db.pipelines distinct)
        (all-IsMissing p.cron p.uuid_text lawful injective rows started empty)

  outcome-startup :
      (db : Db) (c : C)
      → is_ok (startup p started db c).0 ≡ is_ok (load_schedules p.cron p.uuid_text db started).0
  unfolding startup
  outcome-startup db c = elim (Result-cases (load_schedules p.cron p.uuid_text db started).0) [
    | inr (e, failed) ↦ rw (failed, startup) refl
    | inl (u, done) ↦ rw (done, startup) refl
  ]

  pub startup_iff :
      (db : Db) (c : C)
      → Distinct pipeline_key db.pipelines
      → (is_ok (startup p started db c).0 ≡ true)
        ↔ All
            (λ q. is_ok (p.cron.from_crontab q.schedule) ≡ true)
            (active p.cron p.uuid_text db.pipelines)
  startup_iff db c distinct = rw (outcome-startup db c) (load_schedules_iff db distinct)

  scheduled :
      (db : Db) (c : C) (w : World C T)
      → (startup p started db c).1 ≡ up w
      → All
          (λ q. IsScheduled p.cron p.uuid_text w.scheduler q.pipeline_id)
          (active p.cron p.uuid_text db.pipelines)
  unfolding startup
  scheduled db c w h = elim (Result-cases (load_schedules p.cron p.uuid_text db started).0) [
    | inr (e, failed) ↦ absurd (ground (arith, failed, h))
    | inl (u, done) ↦
        let loaded =
          load_schedules-IsScheduled p.cron p.uuid_text lawful db started (rw done refl) in
        let same : (load_schedules p.cron p.uuid_text db started).1 ≡ w.scheduler =
          ground (arith, done, h) in
        subst
          (λ t.
            All (λ q. IsScheduled p.cron p.uuid_text t q.pipeline_id)
              (active p.cron p.uuid_text db.pipelines))
          same loaded
  ]

  -- Over a lawful scheduler that starts empty, where different ids have different texts and all
  -- the pipelines different keys: the program starts exactly where the schedule of each active
  -- pipeline is a cron expression, and once it is up each active pipeline has a job on the
  -- scheduler.
  pub startup-IsScheduled :
      (db : Db) (c : C)
      → Distinct pipeline_key db.pipelines
      → ((is_ok (startup p started db c).0 ≡ true)
          ↔ All
              (λ q. is_ok (p.cron.from_crontab q.schedule) ≡ true)
              (active p.cron p.uuid_text db.pipelines))
        × ((w : World C T)
            → (startup p started db c).1 ≡ up w
            → All
                (λ q. IsScheduled p.cron p.uuid_text w.scheduler q.pipeline_id)
                (active p.cron p.uuid_text db.pipelines))
  startup-IsScheduled db c distinct = (startup_iff db c distinct, scheduled db c)

  stays_off :
      (db : Db) (c : C)
      → is_ok (startup p started db c).0 ≡ false
      → (startup p started db c).1 ≡ off db c
  unfolding startup
  stays_off db c h = elim (Result-cases (load_schedules p.cron p.uuid_text db started).0) [
    | inr (e, failed) ↦ rw (failed, startup) refl
    | inl (u, done) ↦ absurd (ground (arith, done, h))
  ]

  -- Over a lawful scheduler that starts empty, where different ids have different texts: after
  -- a request for one new pipeline, over a connection of the account and accepted by the
  -- INSERT, whose schedule is no cron expression, with fresh ids and over pipelines with
  -- different keys: the answer is the error of the scheduler, and the program does not start
  -- again over the tables that the request leaves, whatever secrets there are.
  pub restart_fails :
      (m : Moment) (body : BulkCreateRequest) (a : ℕ) (db : Db) (t : T) (connection : Connection)
      (table : PipelineTableConfig) (e : Exc)
      → Distinct pipeline_key db.pipelines
      → IsFresh m db
      → owned connection_key connection_account "Connection not found" a body.connection_id
          db.connections
        ≡ ok connection
      → body.tables ≡ table ∷ []
      → insertable body db ≡ ok tt
      → p.cron.from_crontab table.schedule ≡ err e
      → let (answer, (db', _)) = bulk_create_pipelines p.cron p.uuid_text m.new_id body a (db, t) in
        (answer ≡ err e) × ((c : C) → (startup p started db' c).1 ≡ off db' c)
  unfolding new_pipelines
  restart_fails m body a db t connection table e distinct fresh mine one fits bad =
      let new = new_pipelines m.new_id a body 0 (table ∷ []) in
      let after : Db = record db { pipelines = db.pipelines ++ new } in
      let done =
        bulk_create_bad_schedule p.cron p.uuid_text m.new_id body a db t connection table e mine one
          fits bad in
      let keys =
        added-Distinct m.new_id a body db.pipelines (table ∷ []) fresh.unused fresh.distinct
          distinct in
      rw done (
        refl,
        λ c. stays_off after c (
            not_true λ h.
              let starts : is_ok (p.cron.from_crontab table.schedule) ≡ true =
                last_kept (λ q. q.is_active) (λ q. is_ok (p.cron.from_crontab q.schedule) ≡ true)
                  db.pipelines _ refl ((startup_iff after c keys).0 h) in
              ground (arith, bad, starts)),
      )
