-- ===== src/Tests/Loops.antt =====
-- The event loop of an agent with two workers.
use turbocat.Prelude.{ℕ, ◌+◌, ok, ◌≤◌, ◌≡◌, refl, List, [], ◌∷◌, length, arith}
use turbocat.Orchestrator.Jobs.Payload.{JobPayload}
use turbocat.Agent.Loop.{
  Phase, State, active, init, spawned, ask, answer, spawn, begin, stop, Reach, here, next, count,
}
use turbocat.Agent.Loop.Jobs.{everywhere, jobs_conserved}
use turbocat.Agent.Loop.Drain.{left}
use turbocat.Python.Value.{pos}
use turbocat.Agent.Startup.{AgentSettings, Agent, semaphore, thread_pool, make_agent, run}
use turbocat.Agent.Startup.Slots.{run-slots}
use turbocat.Agent.Startup.Shutdown.{steps, run-shutdown}
use turbocat.Tests.Control.{payload}

abbrev three : List JobPayload
three = payload ∷ record payload { job_id = 2 } ∷ record payload { job_id = 3 } ∷ []

abbrev rest : List JobPayload
rest = record payload { job_id = 2 } ∷ record payload { job_id = 3 } ∷ []

-- The three are tasks, and the first of them runs.
abbrev busy : State
busy = record (init 1) { waiting = rest; running = payload ∷ []; claimed = three }

busy-Reach : Reach 2 (init 2) busy
unfolding spawned
busy-Reach =
    next (next (next (next here (ask refl (omega arith))) (answer three refl)) (spawn three refl))
      (begin payload [] rest 1 refl refl)

jobs_conserved_example : count 3 three ≡ everywhere 3 busy
jobs_conserved_example = jobs_conserved 2 3 busy-Reach

abbrev halted : State
halted = record busy { phase = Phase.stopped }

halted-Reach : Reach 2 (init 2) halted
halted-Reach = next busy-Reach (stop [] (λ h. cc) (λ h. refl))

abbrev settings : AgentSettings
settings = record { id = 1; api_key = "key"; max_workers = pos 2 }

abbrev agent : Agent
agent = record {
  client = record { agent_id = 1; api_key = "key" };
  max_workers = 2;
  threads = 2;
  state = init 2;
}

run-slots_example :
    (settings.max_workers ≡ pos (length busy.running + busy.permits))
    × (length busy.running ≤ agent.threads)
unfolding run make_agent semaphore thread_pool
run-slots_example = run-slots {Config = ℕ} settings (ok 0) agent refl busy busy-Reach

run-shutdown_example :
    ((t : State) (r : Reach 2 halted t)
      → (t.phase ≡ Phase.stopped) × (steps r + left t ≤ left halted) × (t.lost ≡ halted.lost))
    × ((t : State) × Reach 2 halted t
        × (active t ≡ 0)
        × ((k : ℕ) → count k t.claimed ≡ count k t.finished + count k halted.lost))
unfolding run make_agent semaphore thread_pool
run-shutdown_example =
    run-shutdown {Config = ℕ} (ok settings) (ok 0) agent refl halted halted-Reach refl
