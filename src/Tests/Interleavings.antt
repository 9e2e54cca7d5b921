-- ===== src/Tests/Interleavings.antt =====
-- The interleaved polls of two agents.
use turbocat.Prelude.{ℕ, ◌+◌, ◌≤◌, refl, [], ◌∷◌, times, All, arith}
use turbocat.Orchestrator.Jobs.Dispatch.{ids_of, claim}
use turbocat.Orchestrator.Jobs.Interleaving.{
  State, committed, held, Reach, start, later, select, commit,
}
use turbocat.Orchestrator.Jobs.Interleaving.Invariant.{IsSettled}
use turbocat.Orchestrator.Jobs.Interleaving.NoDoubles.{claims_disjoint}
use turbocat.Tests.Control.{db}

-- Agents 1 and 2 select, and then agent 2 commits.
abbrev halfway : State
halfway = record { db = committed (2 ∷ []) db; open_claims = (1 ∷ []) ∷ []; claims = 2 ∷ [] }

halfway-Reach : Reach db halfway
unfolding claim held
halfway-Reach =
    later (later (later start (select 1)) (select 2)) (commit (2 ∷ []) [] ((1 ∷ []) ∷ []) refl)

keys : (k : ℕ) → times k (ids_of db.job_runs) ≤ 1
unfolding times
keys k = ground arith

claims_disjoint_example :
    (times 1 halfway.claims + held 1 halfway.open_claims ≤ 1)
    × All (IsSettled halfway.claims) halfway.db.job_runs
claims_disjoint_example = claims_disjoint keys halfway-Reach 1
