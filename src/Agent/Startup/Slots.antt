-- ===== src/Agent/Startup/Slots.antt =====
-- The slots of an agent that has started.
use turbocat.Prelude.{
  ◌+◌, ◌≤◌, ◌<◌, ◌≡◌, sym, ap, ◌∙◌, length, Result, ok, err, ok_inj, refl, arith,
}
use turbocat.Python.Value.{pos}
use turbocat.Agent.Loop.{State, init, Reach}
use turbocat.Agent.Loop.Bounds.{slots, slots-Reach}
use turbocat.Agent.Startup.{AgentSettings, Agent, semaphore, thread_pool, make_agent, run}

-- As many threads as the semaphore lets in, and at least one.
pub make_agent-workers :
    (settings : AgentSettings) (agent : Agent)
    → make_agent settings ≡ ok agent
    → (settings.max_workers ≡ pos agent.max_workers)
      × (agent.threads ≡ agent.max_workers)
      × (agent.state ≡ init agent.max_workers)
      × (0 < agent.max_workers)
unfolding make_agent semaphore thread_pool
make_agent-workers settings agent h = ground (arith, h)

pub run-workers :
    {Config : Type 0} (settings : Result AgentSettings) (ch_config : Result Config) (agent : Agent)
    → run settings ch_config ≡ ok agent
    → (s : AgentSettings) × (settings ≡ ok s) × (make_agent s ≡ ok agent)
unfolding run
run-workers (err e) ch_config agent h = cc
run-workers (ok s) (err e) agent h = cc
run-workers (ok s) (ok c) agent h = (s, refl, h)

-- Of an agent that has started with the setting `max_workers`, in every state that its loop reaches:
-- the jobs that run and the permits that the semaphore has left are together as many as
-- `max_workers` says, and so at most that many jobs run, each of which has a thread of the pool.
pub run-slots :
    {Config : Type 0} (settings : AgentSettings) (ch_config : Result Config) (agent : Agent)
    → run (ok settings) ch_config ≡ ok agent
    → (s : State) → Reach agent.max_workers agent.state s
    → (settings.max_workers ≡ pos (length s.running + s.permits))
      × (length s.running ≤ agent.threads)
run-slots settings ch_config agent h s reached =
    let (made_of, same, made) = run-workers (ok settings) ch_config agent h in
    let (workers, threads, fresh, _) = make_agent-workers made_of agent made in
    let kept : slots s ≡ agent.max_workers =
      omega (arith, slots-Reach agent.max_workers reached, ap slots fresh) in
    (
      ap (λ (a : AgentSettings). a.max_workers) (ok_inj same) ∙ workers ∙ ap pos (sym kept),
      omega (arith, kept, threads),
    )
