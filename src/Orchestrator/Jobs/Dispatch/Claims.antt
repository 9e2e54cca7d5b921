-- ===== src/Orchestrator/Jobs/Dispatch/Claims.antt =====
-- Which jobs a poll claims, and that no later poll claims them again.
use turbocat.Prelude.{
  ℕ, Bool, true, false, ◌≡◌, refl, sym, ap, ◌∙◌, List, [], ◌∷◌, map, ok, arith, ◌==◌, ==_iff,
  ==_refl, str_eq, is_nil, if◌then◌else◌, Bool-cases, inl, inr, All,
}
use mathlib.Core.Bool.{false≢true}
use turbocat.Orchestrator.Models.{JobRun, Db}
use turbocat.Orchestrator.Models.JobStatus
use turbocat.Orchestrator.Jobs.Payload.{Services}
use turbocat.Orchestrator.Jobs.Dispatch.{claimable, has_id, mark, claim, get_pending_jobs}

pub job_id-mark : (ids : List ℕ) (j : JobRun) → (mark ids j).job_id ≡ j.job_id
unfolding mark
job_id-mark ids j = elim (Bool-cases (has_id ids j.job_id)) [ inl p ↦ rw p | inr p ↦ rw p ]

dispatched_status :
    (ids : List ℕ) (j : JobRun)
    → has_id ids j.job_id ≡ true
    → str_eq (mark ids j).status JobStatus.pending ≡ false
unfolding mark
dispatched_status ids j p = rw p

not_claimable :
    (ids : List ℕ) (locked : ℕ → Bool) (agent_id : ℕ) (j : JobRun)
    → has_id ids j.job_id ≡ true
    → claimable locked agent_id (mark ids j) ≡ false
unfolding claimable
not_claimable ids locked agent_id j p = ground (arith, dispatched_status ids j p)

same_id : (ids : List ℕ) (i k : ℕ) → (i == k) ≡ true → has_id ids i ≡ has_id ids k
same_id ids i k e = ap (has_id ids) ((==_iff i k).0 e)

-- A marked job is not claimed, whoever polls and whatever is locked.
claim-mark :
    (ids : List ℕ) (locked : ℕ → Bool) (agent_id : ℕ) (rows : List JobRun) (k : ℕ)
    → has_id ids k ≡ true
    → has_id (claim locked agent_id (map (mark ids) rows)) k ≡ false
unfolding claim has_id
claim-mark ids locked agent_id [] k h = refl
claim-mark ids locked agent_id (j ∷ rows) k h = elim (Bool-cases (has_id ids j.job_id)) [
  | inl p ↦ rw (not_claimable ids locked agent_id j p) (claim-mark ids locked agent_id rows k h)
  | inr p ↦ elim (Bool-cases (claimable locked agent_id (mark ids j))) [
    | inr q ↦ rw q (claim-mark ids locked agent_id rows k h)
    | inl q ↦
        rw (q, job_id-mark ids j)
          (ground (arith, claim-mark ids locked agent_id rows k h, same_id ids j.job_id k))
  ]
]

mark-nil : (rows : List JobRun) → map (mark []) rows ≡ rows
unfolding mark has_id
mark-nil [] = refl
mark-nil (j ∷ rows) = ap (λ l. j ∷ l) (mark-nil rows)

poll_rows :
    (ids : List ℕ) (rows : List JobRun)
    → (if is_nil ids then rows else map (mark ids) rows) ≡ map (mark ids) rows
poll_rows [] rows = sym (mark-nil rows)
poll_rows (k ∷ ids) rows = refl

-- What a poll leaves in the table, whatever it answers.
pub job_runs-get_pending_jobs :
    (services : Services) (locked : ℕ → Bool) (now agent_id : ℕ) (db : Db)
    → (get_pending_jobs services locked now agent_id db).1.job_runs
      ≡ map (mark (claim locked agent_id db.job_runs)) db.job_runs
unfolding get_pending_jobs
job_runs-get_pending_jobs services locked now agent_id db =
    let ids = claim locked agent_id db.job_runs in
    elim (Bool-cases (is_nil ids)) [
      | inl p ↦ rw p (rw p at (poll_rows ids db.job_runs))
      | inr p ↦ rw p
    ]

-- After a poll, whether it returned payloads or raised, no job that it claimed is claimed by a
-- poll of any agent that reads the table which it left.
pub get_pending_jobs_exclusive :
    (services : Services) (locked later : ℕ → Bool) (now agent_id other : ℕ) (db : Db) (k : ℕ)
    → has_id (claim locked agent_id db.job_runs) k ≡ true
    → has_id (claim later other (get_pending_jobs services locked now agent_id db).1.job_runs) k
      ≡ false
get_pending_jobs_exclusive services locked later now agent_id other db k h =
    rw (job_runs-get_pending_jobs services locked now agent_id db)
      (claim-mark (claim locked agent_id db.job_runs) later other db.job_runs k h)

-- No transaction but one's own is open.
abbrev pub unlocked : ℕ → Bool
unlocked k = false

unmarked : (ids : List ℕ) (j : JobRun) → has_id ids j.job_id ≡ false → mark ids j ≡ j
unfolding mark
unmarked ids j p = rw p

Covers : (ℕ → Bool) → ℕ → List ℕ → List JobRun → Type 0
Covers locked agent_id ids rows =
    All (λ j. claimable locked agent_id j ≡ true → has_id ids j.job_id ≡ true) rows

nothing_left :
    (ids : List ℕ) (agent_id : ℕ) (rows : List JobRun)
    → Covers unlocked agent_id ids rows
    → claim unlocked agent_id (map (mark ids) rows) ≡ []
unfolding claim Covers
nothing_left ids agent_id [] h = refl
nothing_left ids agent_id (j ∷ rows) (h, hs) = elim (Bool-cases (has_id ids j.job_id)) [
  | inl p ↦ rw (not_claimable ids unlocked agent_id j p) (nothing_left ids agent_id rows hs)
  | inr p ↦ elim (Bool-cases (claimable unlocked agent_id j)) [
    | inl q ↦ absurd (false≢true (sym p ∙ h q))
    | inr q ↦ rw (unmarked ids j p, q) (nothing_left ids agent_id rows hs)
  ]
]

module _ (locked : ℕ → Bool) (agent_id : ℕ) where
  claim_head :
      (j : JobRun) (rows : List JobRun)
      → claimable locked agent_id j ≡ true
      → has_id (claim locked agent_id (j ∷ rows)) j.job_id ≡ true
  unfolding claim has_id
  claim_head j rows c = rw c (ground (arith, ==_refl j.job_id))

  claim_tail :
      (j : JobRun) (rows : List JobRun) (k : ℕ)
      → has_id (claim locked agent_id rows) k ≡ true
      → has_id (claim locked agent_id (j ∷ rows)) k ≡ true
  unfolding claim has_id
  claim_tail j rows k h = elim (Bool-cases (claimable locked agent_id j)) [
    | inl c ↦ rw c (ground arith)
    | inr c ↦ rw c h
  ]

  claim-Covers :
      (ids : List ℕ) (rows : List JobRun)
      → ((k : ℕ) → has_id (claim locked agent_id rows) k ≡ true → has_id ids k ≡ true)
      → Covers locked agent_id ids rows
  unfolding Covers
  claim-Covers ids [] sub = tt
  claim-Covers ids (j ∷ rows) sub = (
    λ c. sub j.job_id (claim_head j rows c),
    claim-Covers ids rows (λ k h. sub k (claim_tail j rows k h)),
  )

claim_again :
    (services : Services) (now agent_id : ℕ) (db : Db)
    → claim unlocked agent_id (get_pending_jobs services unlocked now agent_id db).1.job_runs ≡ []
claim_again services now agent_id db =
    rw (job_runs-get_pending_jobs services unlocked now agent_id db) (
      nothing_left _ agent_id db.job_runs (
        claim-Covers unlocked agent_id (claim unlocked agent_id db.job_runs) db.job_runs
          (λ k h. h)))

-- A poll claims all that waits for its agent: where no other transaction holds a lock, the agent's
-- next poll returns the empty list and changes nothing. This is so too where the first poll raised
-- while it built its payloads, so that the agent was never told of the jobs that it claimed.
pub get_pending_jobs_twice :
    (services : Services) (now later agent_id : ℕ) (db : Db)
    → let db' = (get_pending_jobs services unlocked now agent_id db).1 in
      get_pending_jobs services unlocked later agent_id db' ≡ (ok [], db')
unfolding get_pending_jobs
get_pending_jobs_twice services now later agent_id db = rw (claim_again services now agent_id db)
