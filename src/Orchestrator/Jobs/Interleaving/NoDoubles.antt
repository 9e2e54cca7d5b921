-- ===== src/Orchestrator/Jobs/Interleaving/NoDoubles.antt =====
-- No job is handed out twice, in whatever order the steps come.
use turbocat.Prelude.{ℕ, ◌+◌, ◌≤◌, inl, inr, List, [], ◌∷◌, All, times, times-nil, arith}
use turbocat.Orchestrator.Models.{JobRun, Db}
use turbocat.Orchestrator.Jobs.Dispatch.{ids_of}
use turbocat.Orchestrator.Scheduler.{pending_job}
use turbocat.Orchestrator.Jobs.Interleaving.{
  State, held, Step, select, commit, abort, report, tick, Reach, start, later,
}
use turbocat.Orchestrator.Jobs.Interleaving.Invariant.{IsSettled, Inv, held-nil, select-Inv}
use turbocat.Orchestrator.Jobs.Interleaving.Moves.{
  commit-Inv, abort-Inv, report-Inv, append-Inv, tick_rows,
}

nothing_claimed : (rows : List JobRun) → All (IsSettled []) rows
nothing_claimed [] = tt
nothing_claimed (j ∷ rows) = (inl (times-nil j.job_id), nothing_claimed rows)

Good : State → Type 0
Good s = Inv s.db.job_runs s.open_claims s.claims

Step-Good : {s t : State} → Step s t → Good s → Good t
unfolding Good
Step-Good {s} (select agent_id) v = select-Inv s.db.job_runs s.open_claims s.claims agent_id v
Step-Good {s} (commit ids before after e) v =
    commit-Inv s.db.job_runs before after ids s.claims (rw e at v)
Step-Good {s} (abort ids before after e) v =
    abort-Inv s.db.job_runs before after ids s.claims (rw e at v)
Step-Good {s} (report now job_id body done _) v =
    report-Inv now job_id body s.db s.open_claims s.claims done v
Step-Good {s} (tick job_id pipeline_id agent_id fresh) v =
    elim (tick_rows job_id pipeline_id agent_id s.db) [
      | inl same ↦ rw same v
      | inr added ↦ rw added (
          append-Inv s.db.job_runs s.open_claims s.claims (pending_job job_id pipeline_id agent_id)
            fresh v)
    ]

start-Good :
    (db : Db)
    → ((k : ℕ) → times k (ids_of db.job_runs) ≤ 1)
    → Good (record { db = db; open_claims = []; claims = [] })
unfolding Good
start-Good db keys = record {
  keys = keys;
  single = λ k. omega (arith, times-nil k, held-nil k);
  known = λ k. omega (arith, times-nil k, held-nil k);
  settled = nothing_claimed db.job_runs;
}

Reach-Good :
    {db : Db} {s : State} → ((k : ℕ) → times k (ids_of db.job_runs) ≤ 1) → Reach db s → Good s
Reach-Good {db} keys start = start-Good db keys
Reach-Good keys (later r st) = Step-Good st (Reach-Good keys r)

-- From a database whose jobs have different ids: in whatever order selections, commits and failures
-- of the polls of any agents come, with reports of any status but "pending" and ticks of the schedule
-- between them, no job is in two claims, whether these are committed or still open, and a job of a
-- committed claim is not pending.
pub claims_disjoint :
    {db : Db} {s : State}
    → ((k : ℕ) → times k (ids_of db.job_runs) ≤ 1)
    → Reach db s
    → (k : ℕ)
    → (times k s.claims + held k s.open_claims ≤ 1) × All (IsSettled s.claims) s.db.job_runs
unfolding Good
claims_disjoint keys r k = let v = Reach-Good keys r in (v.single k, v.settled)
