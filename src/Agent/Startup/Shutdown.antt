-- ===== src/Agent/Startup/Shutdown.antt =====
-- The end of an agent that has started: the signal, and the drain.
use turbocat.Prelude.{
  ℕ, suc, List, [], ◌∷◌, length, subst, ◌+◌, ◌≤◌, ◌≡◌, refl, ap, ◌∙◌, Result, ok, arith,
}
use turbocat.Orchestrator.Jobs.Payload.{JobPayload}
use turbocat.Agent.Loop.{in_hand, Phase, State, active, init, Reach, here, next, count}
use turbocat.Agent.Loop.Jobs.{everywhere, count-nil, jobs_conserved}
use turbocat.Agent.Loop.Drain.{left, stopped-left, drain_ends}
use turbocat.Agent.Loop.Bounds.{slots-Reach}
use turbocat.Agent.Startup.{AgentSettings, Agent, run}
use turbocat.Agent.Startup.Slots.{make_agent-workers, run-workers}

-- The number of steps.
pub steps : {n : ℕ} {s t : State} → Reach n s t → ℕ
steps here = 0
steps (next r st) = suc (steps r)

module _ (n : ℕ) where
  after_stop :
      {s t : State}
      → s.phase ≡ Phase.stopped
      → (r : Reach n s t)
      → (t.phase ≡ Phase.stopped) × (steps r + left t ≤ left s) × (t.lost ≡ s.lost)
  unfolding steps
  after_stop h here = (h, omega arith, refl)
  after_stop {s} {t} h (next {t = mid} r last) =
      let (halted, few, same) = after_stop h r in
      let (halted', less, same') = stopped-left n halted last in
      (halted', omega (arith, few, less), same' ∙ same)

  chain : {s t u : State} → Reach n s t → Reach n t u → Reach n s u
  chain r here = r
  chain r (next r' last) = next (chain r r') last

none_left : (k : ℕ) (xs : List JobPayload) → length xs ≡ 0 → count k xs ≡ 0
none_left k [] h = count-nil k
none_left k (x ∷ xs) h = absurd (omega (arith, h))

accounted :
    (k : ℕ) (t : State)
    → t.phase ≡ Phase.stopped
    → active t ≡ 0
    → count k t.claimed ≡ everywhere k t
    → count k t.claimed ≡ count k t.finished + count k t.lost
unfolding everywhere
accounted k t h quiet all = omega (
  arith,
  all,
  ap (λ q. count k (in_hand q)) h,
  count-nil k,
  none_left k t.waiting (omega (arith, quiet)),
  none_left k t.running (omega (arith, quiet)),
)

-- Of an agent that has started, whatever it has gone through until its loop is stopped: each run from
-- there on leaves the loop stopped, loses no further job, and has at most two steps for each task
-- that waits and one for each that runs; and there is a run to a state without a task, in which
-- every job that the orchestrator has handed to the agent is over, or was lost before the stop.
pub run-shutdown :
    {Config : Type 0} (settings : Result AgentSettings) (ch_config : Result Config) (agent : Agent)
    → run settings ch_config ≡ ok agent
    → (s : State) → Reach agent.max_workers agent.state s
    → s.phase ≡ Phase.stopped
    → ((t : State) (r : Reach agent.max_workers s t)
        → (t.phase ≡ Phase.stopped) × (steps r + left t ≤ left s) × (t.lost ≡ s.lost))
      × ((t : State) × Reach agent.max_workers s t
          × (active t ≡ 0)
          × ((k : ℕ) → count k t.claimed ≡ count k t.finished + count k s.lost))
run-shutdown settings ch_config agent h s reached halted =
    let n = agent.max_workers in
    let (made_of, _, made) = run-workers settings ch_config agent h in
    let (_, _, fresh, some_worker) = make_agent-workers made_of agent made in
    let from_init : Reach n (init n) s = subst (λ i. Reach n i s) fresh reached in
    let (t, drained, quiet, same) =
      drain_ends n s (omega (arith, some_worker, slots-Reach n from_init)) halted in
    let (halted', _, _) = after_stop n halted drained in
    (
      λ u r. after_stop n halted r,
      (
        t,
        drained,
        quiet,
        λ k.
            accounted k t halted' quiet (jobs_conserved n k (chain n from_init drained))
            ∙ ap (λ lost. count k t.finished + count k lost) same,
      ),
    )
