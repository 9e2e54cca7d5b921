-- ===== src/Orchestrator/Lifespan/Fresh.antt =====
-- When `load_schedules` over a fresh scheduler returns.
use turbocat.Prelude.{
  ℕ, String, Bool, true, false, ◌≡◌, ◌↔◌, refl, subst, ◌∙◌, none, List, [], ◌∷◌, ◌++◌, filter, All,
  is_ok, str_eq, eq_iff, ==_iff, if◌then◌else◌, arith, Result-cases, Bool-cases, inl, inr,
}
use turbocat.Orchestrator.Models.{Pipeline}
use turbocat.Orchestrator.Jobs.Status.{pipeline_key}
use turbocat.Orchestrator.Scheduler.{Cron, Lawful, schedule_id, cron_job, load_all}
use turbocat.Orchestrator.Scheduler.Schedules.{at_end, step_stop, step_add}
use turbocat.Orchestrator.Lifespan.Keys.{Apart, Distinct}
use turbocat.Orchestrator.Lifespan.Loading.{schedule_id_inj}

pub not_true : {b : Bool} → (b ≡ true → ⊥) → b ≡ false
not_true {b = true} h = absurd (h refl)
not_true {b = false} h = refl

module _ {A : Type 0} (keep : A → Bool) (P : A → Type 0) where
  All-rest : (b : Bool) (a : A) (rows : List A) → All P (if b then a ∷ rows else rows) → All P rows
  All-rest true a rows h = h.1
  All-rest false a rows h = h

  pub last_kept :
      (rows : List A) (a : A) → keep a ≡ true → All P (filter keep (rows ++ a ∷ [])) → P a
  last_kept [] a kept h =
      let both : All P (a ∷ []) = subst (λ b. All P (if b then a ∷ [] else [])) kept h in both.0
  last_kept (r ∷ rows) a kept h =
      last_kept rows a kept (All-rest (keep r) r (filter keep (rows ++ a ∷ [])) h)

module _ {A : Type 0} (key : A → ℕ) (keep : A → Bool) where
  All-kept : (P : A → Type 0) (rows : List A) → All P rows → All P (filter keep rows)
  All-kept P [] h = tt
  All-kept P (a ∷ rows) (h, hs) = elim (Bool-cases (keep a)) [
    | inl kept ↦ rw kept (h, All-kept P rows hs)
    | inr left ↦ rw left (All-kept P rows hs)
  ]

  pub Distinct-filter : (rows : List A) → Distinct key rows → Distinct key (filter keep rows)
  Distinct-filter [] h = tt
  Distinct-filter (a ∷ rows) (h, hs) = elim (Bool-cases (keep a)) [
    | inl kept ↦ rw kept (All-kept (Apart key a) rows h, Distinct-filter rows hs)
    | inr left ↦ rw left (Distinct-filter rows hs)
  ]

module _ {T Trigger : Type 0} (cron : Cron T Trigger) (uuid_text : ℕ → String)
    (lawful : Lawful cron) (injective : (i j : ℕ) → uuid_text i ≡ uuid_text j → i ≡ j) where
  open cron use {from_crontab, get_job, add_job, remove_job}

  abbrev IsMissing : T → Pipeline → Type 0
  IsMissing t p = get_job (schedule_id cron uuid_text p.pipeline_id) t ≡ none

  abbrev HasCrontab : Pipeline → Type 0
  HasCrontab p = is_ok (from_crontab p.schedule) ≡ true

  still-IsMissing :
      (p q : Pipeline) (trigger : Trigger) (t : T)
      → Apart pipeline_key p q
      → IsMissing t q
      → IsMissing (add_job (cron_job cron uuid_text p trigger) t) q
  still-IsMissing p q trigger t apart missing =
      let id = schedule_id cron uuid_text p.pipeline_id in
      let id' = schedule_id cron uuid_text q.pipeline_id in
      lawful.get-add id' (cron_job cron uuid_text p trigger) t ∙ elim (Bool-cases (str_eq id id')) [
        | inr other ↦ rw other missing
        | inl same ↦
            let e =
              schedule_id_inj cron uuid_text lawful injective p.pipeline_id q.pipeline_id
                ((eq_iff id id').0 same) in
            absurd (ground (arith, apart, ==_iff (pipeline_key p) (pipeline_key q), e))
      ]

  rest-IsMissing :
      (p : Pipeline) (trigger : Trigger) (t : T) (ps : List Pipeline)
      → All (Apart pipeline_key p) ps
      → All (IsMissing t) ps
      → All (IsMissing (add_job (cron_job cron uuid_text p trigger) t)) ps
  rest-IsMissing p trigger t [] h k = tt
  rest-IsMissing p trigger t (q ∷ ps) (h, hs) (k, ks) =
      (still-IsMissing p q trigger t h k, rest-IsMissing p trigger t ps hs ks)

  pub load_all_iff :
      (ps : List Pipeline) (t : T)
      → Distinct pipeline_key ps
      → All (IsMissing t) ps
      → (is_ok (load_all cron uuid_text ps t).0 ≡ true) ↔ All HasCrontab ps
  load_all_iff [] t distinct missing = (λ h. tt, λ h. rw (at_end cron uuid_text t) refl)
  load_all_iff (p ∷ ps) t (apart, distinct) (missing, rest) =
      elim (Result-cases (from_crontab p.schedule)) [
        | inr (e, bad) ↦
            rw (step_stop cron uuid_text p ps t e missing bad, bad)
              (λ h. absurd (ground arith), λ h. absurd (ground (arith, h.0)))
        | inl (trigger, fine) ↦
            let (there, back) =
              load_all_iff ps (add_job (cron_job cron uuid_text p trigger) t) distinct
                (rest-IsMissing p trigger t ps apart rest) in
            rw (step_add cron uuid_text p ps t trigger missing fine, fine)
              (λ h. (refl, there h), λ h. back h.1)
      ]

  pub all-IsMissing :
      (ps : List Pipeline) (t : T) → ((k : String) → get_job k t ≡ none) → All (IsMissing t) ps
  all-IsMissing [] t empty = tt
  all-IsMissing (p ∷ ps) t empty = (empty _, all-IsMissing ps t empty)
