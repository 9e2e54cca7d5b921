-- ===== src/Tests/Fleets.antt =====
-- One agent, one poll, one job.
use turbocat.Prelude.{ℕ, ◌≤◌, refl, inr, [], ◌∷◌, times, arith}
use turbocat.Orchestrator.Jobs.Dispatch.{ids_of, claim}
use turbocat.Orchestrator.Jobs.Interleaving.{committed, held, select, commit}
use turbocat.Agent.Loop as Loop
use turbocat.Agent.Loop.{Phase, init, spawned, ask, answer, spawn}
use turbocat.Fleet as Fleet
use turbocat.Fleet.{serve, receive, work, join, further, runs}
use turbocat.Fleet.AtMostOnce.{runs_at_most_once}
use turbocat.Tests.Control.{db, payload}

abbrev asking : Loop.State
asking = record (init 4) { phase = Phase.asking }

abbrev answered : Loop.State
answered = record (init 4) { phase = Phase.answered (payload ∷ []); claimed = payload ∷ [] }

abbrev has_task : Loop.State
has_task = record (init 4) { waiting = payload ∷ []; claimed = payload ∷ [] }

abbrev runs_one : Loop.State
runs_one = record (init 3) { running = payload ∷ []; claimed = payload ∷ [] }

abbrev after : Fleet.State
after = record {
  server = record { db = committed (1 ∷ []) db; open_claims = []; claims = 1 ∷ [] };
  answers = [];
  agents = runs_one ∷ [];
}

after-Reach : Fleet.Reach 4 db after
unfolding claim held spawned
after-Reach =
    let asked : Fleet.Reach 4 db _ =
      further (further Fleet.begin join) (work (init 4) [] [] refl (ask refl (omega arith)) refl) in
    let claimed : Fleet.Reach 4 db _ =
      further (further asked (serve (select 1) refl))
        (Fleet.claim (1 ∷ []) (payload ∷ []) (commit (1 ∷ []) [] [] refl) refl (inr refl)) in
    let received : Fleet.Reach 4 db _ =
      further claimed
        (receive (payload ∷ []) [] [] asking [] [] refl refl (answer (payload ∷ []) refl) refl) in
    further (further received (work answered [] [] refl (spawn (payload ∷ []) refl) refl))
      (work has_task [] [] refl (Loop.begin payload [] [] 3 refl refl) refl)

keys : (k : ℕ) → times k (ids_of db.job_runs) ≤ 1
unfolding times
keys k = ground arith

runs_at_most_once_example : runs 1 (runs_one ∷ []) ≤ 1
runs_at_most_once_example = runs_at_most_once 4 db keys after-Reach 1
