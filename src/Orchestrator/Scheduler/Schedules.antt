-- ===== src/Orchestrator/Scheduler/Schedules.antt =====
-- Which pipelines are on the scheduler.
use turbocat.Prelude.{
  ℕ, String, true, ◌≡◌, refl, sym, subst, ◌∙◌, none, some, List, [], ◌∷◌, ◌++◌, All, Result, ok,
  err, is_ok, Exc, str_eq, eq_refl, arith, ==_refl, Option-cases, Result-cases, Bool-cases, inl,
  inr,
}
use turbocat.Orchestrator.Models.{Pipeline, JobRun, Db}
use turbocat.Orchestrator.Jobs.Dispatch.{claimable, has_id, claim}
use turbocat.Orchestrator.Jobs.Dispatch.Claims.{unlocked}
use turbocat.Orchestrator.Scheduler.{
  Cron, CronJob, Lawful, schedule_id, cron_job, load_all, active, load_schedules, pending_job,
  enqueue_job,
}

module _ {T Trigger : Type 0} (cron : Cron T Trigger) (uuid_text : ℕ → String) where
  open cron use {from_crontab, get_job, add_job, remove_job}

  -- There is a job under the id of the pipeline.
  abbrev pub IsScheduled : T → ℕ → Type 0
  IsScheduled t pipeline_id =
      (job : CronJob Trigger) × (get_job (schedule_id cron uuid_text pipeline_id) t ≡ some job)

  pub at_end : (t : T) → load_all cron uuid_text [] t ≡ (ok tt, t)
  unfolding load_all
  at_end t = refl

  module _ (p : Pipeline) (ps : List Pipeline) (t : T) where
    pub step_skip :
        (job : CronJob Trigger)
        → get_job (schedule_id cron uuid_text p.pipeline_id) t ≡ some job
        → load_all cron uuid_text (p ∷ ps) t ≡ load_all cron uuid_text ps t
    unfolding load_all
    step_skip job there = rw (there, load_all) refl

    pub step_stop :
        (e : Exc)
        → get_job (schedule_id cron uuid_text p.pipeline_id) t ≡ none
        → from_crontab p.schedule ≡ err e
        → load_all cron uuid_text (p ∷ ps) t ≡ (err e, t)
    unfolding load_all
    step_stop e missing bad = rw (missing, load_all, bad) refl

    pub step_add :
        (trigger : Trigger)
        → get_job (schedule_id cron uuid_text p.pipeline_id) t ≡ none
        → from_crontab p.schedule ≡ ok trigger
        → load_all cron uuid_text (p ∷ ps) t
          ≡ load_all cron uuid_text ps (add_job (cron_job cron uuid_text p trigger) t)
    unfolding load_all
    step_add trigger missing fine = rw (missing, load_all, fine) refl

  module _ (lawful : Lawful cron) where
    IsScheduled-add_job :
        (p : Pipeline) (trigger : Trigger) (t : T) (k : ℕ)
        → IsScheduled t k
        → IsScheduled (add_job (cron_job cron uuid_text p trigger) t) k
    IsScheduled-add_job p trigger t k (job, h) =
        let job' = cron_job cron uuid_text p trigger in
        elim (Bool-cases (str_eq job'.id (schedule_id cron uuid_text k))) [
          | inl same ↦ (job', lawful.get-add _ job' t ∙ rw same refl)
          | inr other ↦ (job, lawful.get-add _ job' t ∙ rw other h)
        ]

    IsScheduled-cron_job :
        (p : Pipeline) (trigger : Trigger) (t : T)
        → IsScheduled (add_job (cron_job cron uuid_text p trigger) t) p.pipeline_id
    IsScheduled-cron_job p trigger t =
        let job' = cron_job cron uuid_text p trigger in
        (job', lawful.get-add _ job' t ∙ rw (eq_refl job'.id) refl)

    load_all_keeps :
        (ps : List Pipeline) (t : T) (k : ℕ)
        → IsScheduled t k
        → IsScheduled (load_all cron uuid_text ps t).1 k
    load_all_keeps [] t k h = subst (λ out. IsScheduled out.1 k) (sym (at_end t)) h
    load_all_keeps (p ∷ ps) t k h =
        elim (Option-cases (get_job (schedule_id cron uuid_text p.pipeline_id) t)) [
          | inr (job, there) ↦
              subst (λ out. IsScheduled out.1 k) (sym (step_skip p ps t job there))
                (load_all_keeps ps t k h)
          | inl missing ↦ elim (Result-cases (from_crontab p.schedule)) [
            | inr (e, bad) ↦
                subst (λ out. IsScheduled out.1 k) (sym (step_stop p ps t e missing bad)) h
            | inl (trigger, fine) ↦
                subst (λ out. IsScheduled out.1 k) (sym (step_add p ps t trigger missing fine))
                  (load_all_keeps ps _ k (IsScheduled-add_job p trigger t k h))
          ]
        ]

    -- All of the pipelines, if the run returned.
    Done : List Pipeline → Result (Unit {0}) × T → Type 0
    Done ps out = is_ok out.0 ≡ true → All (λ p. IsScheduled out.1 p.pipeline_id) ps

    load_all-Done : (ps : List Pipeline) (t : T) → Done ps (load_all cron uuid_text ps t)
    unfolding Done
    load_all-Done [] t = λ h. tt
    load_all-Done (p ∷ ps) t =
        elim (Option-cases (get_job (schedule_id cron uuid_text p.pipeline_id) t)) [
          | inr (job, there) ↦
              subst (Done (p ∷ ps)) (sym (step_skip p ps t job there))
                (λ h. (load_all_keeps ps t p.pipeline_id (job, there), load_all-Done ps t h))
          | inl missing ↦ elim (Result-cases (from_crontab p.schedule)) [
            | inr (e, bad) ↦
                subst (Done (p ∷ ps)) (sym (step_stop p ps t e missing bad)) (λ h. ground arith)
            | inl (trigger, fine) ↦
                subst (Done (p ∷ ps)) (sym (step_add p ps t trigger missing fine)) (λ h. (
                  load_all_keeps ps _ p.pipeline_id (IsScheduled-cron_job p trigger t),
                  load_all-Done ps _ h,
                ))
          ]
        ]

    -- Over a lawful scheduler: where `load_schedules` returns, each active pipeline of the database
    -- has a job on the scheduler under its id.
    pub load_schedules-IsScheduled :
        (db : Db) (t : T)
        → is_ok (load_schedules cron uuid_text db t).0 ≡ true
        → All
            (λ p. IsScheduled (load_schedules cron uuid_text db t).1 p.pipeline_id)
            (active cron uuid_text db.pipelines)
    unfolding load_schedules Done
    load_schedules-IsScheduled db t h = load_all-Done (active cron uuid_text db.pipelines) t h

enqueued :
    (job_id pipeline_id agent_id : ℕ) (rows : List JobRun)
    → has_id (claim unlocked agent_id (rows ++ pending_job job_id pipeline_id agent_id ∷ [])) job_id
      ≡ true
unfolding claim has_id
enqueued job_id pipeline_id agent_id [] = rw (==_refl agent_id) (ground (arith, ==_refl job_id))
enqueued job_id pipeline_id agent_id (j ∷ rows) =
    elim (Bool-cases (claimable unlocked agent_id j)) [
      | inl c ↦ rw c (ground (arith, enqueued job_id pipeline_id agent_id rows))
      | inr c ↦ rw c (enqueued job_id pipeline_id agent_id rows)
    ]

-- A job that a tick of the schedule has put into the database is among those that the next poll of
-- its agent claims, where no other transaction holds a lock.
pub enqueue_job-claim :
    (job_id pipeline_id agent_id : ℕ) (db : Db)
    → is_ok (enqueue_job job_id pipeline_id agent_id db).0 ≡ true
    → has_id
        (claim unlocked agent_id (enqueue_job job_id pipeline_id agent_id db).1.job_runs)
        job_id
      ≡ true
unfolding enqueue_job
enqueue_job-claim job_id pipeline_id agent_id db h =
    ground (arith, enqueued job_id pipeline_id agent_id db.job_runs)
