-- ===== src/Agent/Loop/Bounds.antt =====
-- The permits of the semaphore and the jobs that run.
use turbocat.Prelude.{
  ℕ, suc, ◌+◌, ◌≡◌, refl, ◌∙◌, List, ◌∷◌, ◌++◌, length, length-append, arith, ap,
}
use turbocat.Orchestrator.Jobs.Payload.{JobPayload}
use turbocat.Agent.Loop.{
  State, spawned, Step, ask, answer, fail, spawn, begin, end, stop, Reach, here, next,
}

pub length-split :
    (before after : List JobPayload) (job : JobPayload)
    → length (before ++ job ∷ after) ≡ suc (length (before ++ after))
length-split before after job =
    omega (arith, length-append before (job ∷ after), length-append before after)

-- The permits that there are, in the semaphore or with a job that runs.
abbrev pub slots : State → ℕ
slots s = length s.running + s.permits

module _ (max_workers : ℕ) where
  pub slots-Step : {s t : State} → Step max_workers s t → slots t ≡ slots s
  unfolding spawned
  slots-Step (ask _ _) = refl
  slots-Step (answer _ _) = refl
  slots-Step (fail _ _) = refl
  slots-Step (spawn _ _) = refl
  slots-Step (begin job before after permits e room) = omega (arith, room)
  slots-Step (end job before after e) = omega (arith, ap length e, length-split before after job)
  slots-Step (stop _ _ _) = refl

  pub slots-Reach : {s t : State} → Reach max_workers s t → slots t ≡ slots s
  slots-Reach here = refl
  slots-Reach (next r st) = slots-Step st ∙ slots-Reach r
