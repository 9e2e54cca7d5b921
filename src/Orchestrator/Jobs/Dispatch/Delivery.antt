-- ===== src/Orchestrator/Jobs/Dispatch/Delivery.antt =====
-- What a poll that returns hands to the agent.
use mathlib.Core.Path.{subst₂}
use mathlib.Core.List.{Perm}
use mathlib.Core.List.Perm
use turbocat.Prelude.{
  ℕ, Bool, true, false, ◌≡◌, refl, sym, ap, ap₂, subst, ◌∙◌, List, [], ◌∷◌, map, filter, ok, arith,
  ==_iff, ==_refl, is_nil, Bool-cases, >>=-eq-ok, ok_inj, inl, inr, All,
}
use turbocat.Orchestrator.Models.{JobRun, Db}
use turbocat.Orchestrator.Jobs.Payload.{JobPayload, Services, with_relations, payloads}
use turbocat.Orchestrator.Jobs.Dispatch.{claimable, has_id, ids_of, mark, claim, get_pending_jobs}
use turbocat.Orchestrator.Jobs.Dispatch.Claims.{job_id-mark}

-- The primary keys of the table are different.
abbrev pub Unique : List JobRun → Type 0
Unique [] = Unit
Unique (j ∷ rows) = (has_id (ids_of rows) j.job_id ≡ false) × Unique rows

module _ (locked : ℕ → Bool) (agent_id : ℕ) where
  -- The reload by ids finds the rows that were claimed, and no others.
  Agree : List ℕ → List JobRun → Type 0
  Agree ids rows = All (λ j. has_id ids j.job_id ≡ claimable locked agent_id j) rows

  reload :
      (ids : List ℕ) (rows : List JobRun)
      → Agree ids rows
      → ids_of (filter (λ j. has_id ids j.job_id) (map (mark ids) rows))
        ≡ claim locked agent_id rows
  unfolding Agree claim
  reload ids [] h = refl
  reload ids (j ∷ rows) (h, hs) = elim (Bool-cases (claimable locked agent_id j)) [
    | inl c ↦ rw (job_id-mark ids j, h, c) (ap (λ l. j.job_id ∷ l) (reload ids rows hs))
    | inr c ↦ rw (job_id-mark ids j, h, c, reload ids rows hs)
  ]

  claim-subset :
      (rows : List JobRun) (k : ℕ)
      → has_id (ids_of rows) k ≡ false
      → has_id (claim locked agent_id rows) k ≡ false
  unfolding claim has_id
  claim-subset [] k h = refl
  claim-subset (j ∷ rows) k h = elim (Bool-cases (claimable locked agent_id j)) [
    | inl c ↦ rw c (ground (arith, claim-subset rows k))
    | inr c ↦ rw c (claim-subset rows k (ground arith))
  ]

  Agree-cons :
      (k : ℕ) (ids : List ℕ) (rows : List JobRun)
      → has_id (ids_of rows) k ≡ false
      → Agree ids rows
      → Agree (k ∷ ids) rows
  unfolding Agree has_id
  Agree-cons k ids [] h a = tt
  Agree-cons k ids (j ∷ rows) h (a, as') = (
    ground (arith, ==_iff k j.job_id, ==_iff j.job_id k),
    Agree-cons k ids rows (ground arith) as',
  )

  claim-yes :
      (j : JobRun) (rows : List JobRun)
      → claimable locked agent_id j ≡ true
      → claim locked agent_id (j ∷ rows) ≡ j.job_id ∷ claim locked agent_id rows
  unfolding claim
  claim-yes j rows c = rw c

  claim-no :
      (j : JobRun) (rows : List JobRun)
      → claimable locked agent_id j ≡ false
      → claim locked agent_id (j ∷ rows) ≡ claim locked agent_id rows
  unfolding claim
  claim-no j rows c = rw c

  claim-Agree : (rows : List JobRun) → Unique rows → Agree (claim locked agent_id rows) rows
  unfolding Agree has_id
  claim-Agree [] u = tt
  claim-Agree (j ∷ rows) (fresh, u) = elim (Bool-cases (claimable locked agent_id j)) [
    | inl c ↦
        subst (λ ids. Agree ids (j ∷ rows)) (sym (claim-yes j rows c))
          (
            rw c (ground (arith, ==_refl j.job_id)),
            Agree-cons j.job_id (claim locked agent_id rows) rows fresh (claim-Agree rows u),
          )
    | inr c ↦
        subst (λ ids. Agree ids (j ∷ rows)) (sym (claim-no j rows c))
          (rw c (claim-subset rows j.job_id fresh), claim-Agree rows u)
  ]

payload-job_id :
    (services : Services) (now : ℕ) (db : Db) (job : JobRun) (p : JobPayload)
    → with_relations services now db job ≡ ok p
    → p.job_id ≡ job.job_id
unfolding with_relations
payload-job_id services now db job p h = ground arith

payloads-ids :
    (services : Services) (now : ℕ) (db : Db) (jobs : List JobRun) (ps : List JobPayload)
    → payloads services now db jobs ≡ ok ps
    → map (λ (p : JobPayload). p.job_id) ps ≡ ids_of jobs
unfolding payloads
payloads-ids services now db [] [] h = refl
payloads-ids services now db [] (p ∷ ps) h = cc
payloads-ids services now db (job ∷ jobs) ps h =
    let (p, one, more) = >>=-eq-ok (with_relations services now db job) _ h in
    let (rest, many, all) = >>=-eq-ok (payloads services now db jobs) _ more in
    ap (map (λ (q : JobPayload). q.job_id)) (ok_inj (sym all))
    ∙ ap₂ (λ i l. i ∷ l) (payload-job_id services now db job p one)
        (payloads-ids services now db jobs rest many)

nil_of_is_nil : (ids : List ℕ) → is_nil ids ≡ true → ids ≡ []
nil_of_is_nil [] h = refl
nil_of_is_nil (k ∷ ids) h = cc

-- Where the rows of the table have different ids and the reload gives the rows that its filter
-- selects in whatever order: the jobs in the payloads of a poll that returns are, but for their order,
-- exactly the jobs that it claimed.
pub get_pending_jobs_delivers :
    (services : Services) (locked : ℕ → Bool) (now agent_id : ℕ) (db : Db) (ps : List JobPayload)
    → Unique db.job_runs
    → ((rows : List JobRun) → Perm (services.row_order rows) rows)
    → (get_pending_jobs services locked now agent_id db).0 ≡ ok ps
    → Perm (map (λ (p : JobPayload). p.job_id) ps) (claim locked agent_id db.job_runs)
unfolding get_pending_jobs
get_pending_jobs_delivers services locked now agent_id db ps u reorders h =
    let ids = claim locked agent_id db.job_runs in
    elim (Bool-cases (is_nil ids)) [
      | inl none_waiting ↦
          subst (Perm (map (λ (p : JobPayload). p.job_id) ps))
            (ap (map (λ (p : JobPayload). p.job_id)) (ok_inj (sym (rw none_waiting at h)))
              ∙ sym (nil_of_is_nil ids none_waiting))
            (Perm.refl _)
      | inr some_wait ↦
          subst₂ Perm (sym (payloads-ids services now _ _ ps (rw some_wait at h)))
            (reload locked agent_id ids db.job_runs (claim-Agree locked agent_id db.job_runs u))
            (Perm.map (λ (j : JobRun). j.job_id) (reorders _))
    ]
