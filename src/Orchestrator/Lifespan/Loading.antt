-- ===== src/Orchestrator/Lifespan/Loading.antt =====
-- Jobs that are added for active pipelines keep the scheduler in step: `register_pipeline` for each
-- new pipeline, and `load_schedules` at the start.
use text.Mathlib.TextLemmas.{append_cancel_left}
use turbocat.Prelude.{
  ℕ, String, Bool, true, filter, Result, Exc, ◌≡◌, refl, sym, subst, ◌∙◌, none, some, List, [], ◌∷◌,
  All, ok, err, str_eq, eq_iff, arith, Option-cases, Result-cases, Bool-cases, inl, inr,
}
use turbocat.Orchestrator.Models.{Pipeline, Db}
use turbocat.Orchestrator.Scheduler.{
  Cron, Lawful, schedule_id, cron_job, register_pipeline, load_all, active, load_schedules,
}
use turbocat.Orchestrator.Scheduler.Schedules.{at_end, step_skip, step_stop, step_add}
use turbocat.Orchestrator.Pipelines.{register_each}
use turbocat.Orchestrator.Lifespan.Keys.{Distinct, Distinct-find}
use turbocat.Orchestrator.Jobs.Status.{pipeline_key}
use turbocat.Orchestrator.Lifespan.InStep.{IsJobOf, InStep, IsLive, InStep-nothing}

All-filter {ℓ κ} :
    {A : Type ℓ} {P Q : A → Type κ} (keep : A → Bool)
    → ((a : A) → P a → keep a ≡ true → Q a)
    → (xs : List A) → All P xs
    → All Q (filter keep xs)
All-filter keep f [] h = tt
All-filter keep f (x ∷ xs) (h, hs) = elim (Bool-cases (keep x)) [
  | inl kept ↦ rw kept (f x h kept, All-filter keep f xs hs)
  | inr left ↦ rw left (All-filter keep f xs hs)
]

module _ {T Trigger : Type 0} (cron : Cron T Trigger) (uuid_text : ℕ → String)
    (lawful : Lawful cron) (injective : (i j : ℕ) → uuid_text i ≡ uuid_text j → i ≡ j) where
  open cron use {from_crontab, get_job, add_job, remove_job}

  pub schedule_id_inj :
      (i j : ℕ) → schedule_id cron uuid_text i ≡ schedule_id cron uuid_text j → i ≡ j
  unfolding schedule_id
  schedule_id_inj i j h =
      injective i j (append_cancel_left "pipeline_" (uuid_text i) (uuid_text j) h)

  InStep-add_job :
      (pipelines : List Pipeline) (t : T) (p : Pipeline) (trigger : Trigger)
      → IsLive cron uuid_text pipelines p
      → InStep cron uuid_text pipelines t
      → InStep cron uuid_text pipelines (add_job (cron_job cron uuid_text p trigger) t)
  unfolding InStep
  InStep-add_job pipelines t p trigger (found, is_on) v k job h =
      let added = cron_job cron uuid_text p trigger in
      let id = schedule_id cron uuid_text k in
      let left = sym (lawful.get-add id added t) ∙ h in
      elim (Bool-cases (str_eq added.id id)) [
        | inr other ↦ v k job (ground (arith, other, left))
        | inl same ↦
            let same_key : p.pipeline_id ≡ k =
              schedule_id_inj p.pipeline_id k ((eq_iff added.id id).0 same) in
            let e : some added ≡ some job = ground (arith, same, left) in
            let jobs : added ≡ job = cc in
            subst (IsJobOf cron uuid_text pipelines k) jobs (
              subst (λ i. IsJobOf cron uuid_text pipelines i added) same_key
                (p, found, is_on, refl, refl))
      ]

  After : List Pipeline → Result (Unit {0}) × T → Type 0
  After pipelines out = InStep cron uuid_text pipelines out.1

  register_stop :
      (p : Pipeline) (new : List Pipeline) (t : T) (e : Exc)
      → from_crontab p.schedule ≡ err e
      → register_each cron uuid_text (p ∷ new) t ≡ (err e, t)
  unfolding register_each register_pipeline
  register_stop p new t e bad = ground (arith, bad)

  register_next :
      (p : Pipeline) (new : List Pipeline) (t : T) (trigger : Trigger)
      → from_crontab p.schedule ≡ ok trigger
      → register_each cron uuid_text (p ∷ new) t
        ≡ register_each cron uuid_text new (add_job (cron_job cron uuid_text p trigger) t)
  unfolding register_each register_pipeline
  register_next p new t trigger fine = ground (arith, fine)

  register_none : (t : T) → register_each cron uuid_text [] t ≡ (ok tt, t)
  unfolding register_each
  register_none t = refl

  pub register_each-InStep :
      (pipelines new : List Pipeline) (t : T)
      → All (IsLive cron uuid_text pipelines) new
      → InStep cron uuid_text pipelines t
      → InStep cron uuid_text pipelines (register_each cron uuid_text new t).1
  unfolding After
  register_each-InStep pipelines [] t lives v = subst (After pipelines) (sym (register_none t)) v
  register_each-InStep pipelines (p ∷ new) t (live, lives) v =
      elim (Result-cases (from_crontab p.schedule)) [
        | inr (e, bad) ↦ subst (After pipelines) (sym (register_stop p new t e bad)) v
        | inl (trigger, fine) ↦ subst (After pipelines) (sym (register_next p new t trigger fine)) (
            register_each-InStep pipelines new _ lives
              (InStep-add_job pipelines t p trigger live v))
      ]

  load_all-InStep :
      (pipelines ps : List Pipeline) (t : T)
      → All (IsLive cron uuid_text pipelines) ps
      → InStep cron uuid_text pipelines t
      → InStep cron uuid_text pipelines (load_all cron uuid_text ps t).1
  unfolding After
  load_all-InStep pipelines [] t lives v = subst (After pipelines) (sym (at_end cron uuid_text t)) v
  load_all-InStep pipelines (p ∷ ps) t (live, lives) v =
      elim (Option-cases (get_job (schedule_id cron uuid_text p.pipeline_id) t)) [
        | inr (job, there) ↦
            subst (After pipelines) (sym (step_skip cron uuid_text p ps t job there))
              (load_all-InStep pipelines ps t lives v)
        | inl missing ↦ elim (Result-cases (from_crontab p.schedule)) [
          | inr (e, bad) ↦
              subst (After pipelines) (sym (step_stop cron uuid_text p ps t e missing bad)) v
          | inl (trigger, fine) ↦
              subst (After pipelines) (sym (step_add cron uuid_text p ps t trigger missing fine))
                (load_all-InStep pipelines ps _ lives (InStep-add_job pipelines t p trigger live v))
        ]
      ]

  pub load_schedules-InStep :
      (db : Db) (t : T)
      → Distinct pipeline_key db.pipelines
      → ((k : String) → get_job k t ≡ none)
      → InStep cron uuid_text db.pipelines (load_schedules cron uuid_text db t).1
  unfolding load_schedules
  load_schedules-InStep db t distinct empty =
      load_all-InStep db.pipelines (active cron uuid_text db.pipelines) t
        (All-filter (λ p. p.is_active) (λ p h on. (h, on)) db.pipelines
          (Distinct-find pipeline_key db.pipelines distinct))
        (InStep-nothing cron uuid_text db.pipelines t empty)
