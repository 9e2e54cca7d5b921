-- ===== src/Agent/Loop/Jobs.antt =====
-- What becomes of the jobs that the agent has claimed.
use turbocat.Prelude.{ℕ, ◌+◌, ◌≡◌, refl, ap, List, [], ◌∷◌, ◌++◌, times, arith}
use turbocat.Orchestrator.Jobs.Payload.{JobPayload}
use turbocat.Agent.Loop.{
  Phase, State, init, spawned, in_hand, Step, ask, answer, fail, spawn, begin, end, stop, Reach,
  here, next, count,
}

pub count-append : (k : ℕ) (xs ys : List JobPayload) → count k (xs ++ ys) ≡ count k xs + count k ys
unfolding count times
count-append k [] ys = omega arith
count-append k (x ∷ xs) ys = omega (arith, count-append k xs ys)

count-split :
    (k : ℕ) (before after : List JobPayload) (job : JobPayload)
    → count k (before ++ job ∷ after) ≡ count k (job ∷ before ++ after)
unfolding count times
count-split k [] after job = refl
count-split k (b ∷ before) after job = omega (arith, count-split k before after job)

count-cons :
    (k : ℕ) (job : JobPayload) (jobs : List JobPayload)
    → count k (job ∷ jobs) ≡ count k (job ∷ []) + count k jobs
unfolding count times
count-cons k job jobs = omega arith

pub count-nil : (k : ℕ) → count k [] ≡ 0
unfolding count times
count-nil k = refl

-- The jobs with the id k, wherever they are.
unfoldable pub everywhere : ℕ → State → ℕ
everywhere k s =
    count k (in_hand s.phase)
    + count k s.waiting
    + count k s.running
    + count k s.finished
    + count k s.lost

module _ (max_workers k : ℕ) where
  abbrev Balanced : State → Type 0
  Balanced s = count k s.claimed ≡ everywhere k s

  hand : (s : State) {p : Phase} → s.phase ≡ p → count k (in_hand s.phase) ≡ count k (in_hand p)
  hand s e = ap (λ q. count k (in_hand q)) e

  Step-Balanced : {s t : State} → Step max_workers s t → Balanced s → Balanced t
  unfolding everywhere spawned
  Step-Balanced {s} (ask e _) h = omega (arith, hand s e, h)
  Step-Balanced {s} (answer jobs e) h =
      omega (arith, hand s e, h, count-nil k, count-append k jobs s.claimed)
  Step-Balanced {s} (fail jobs e) h =
      omega (arith, hand s e, h, count-append k jobs s.claimed, count-append k jobs s.lost)
  Step-Balanced {s} (spawn jobs e) h =
      omega (arith, hand s e, h, count-nil k, count-append k s.waiting jobs)
  Step-Balanced {s} (begin job before after permits e room) h = omega (
    arith,
    h,
    ap (count k) e,
    count-split k before after job,
    count-cons k job (before ++ after),
    count-cons k job s.running,
  )
  Step-Balanced {s} (end job before after e) h = omega (
    arith,
    h,
    ap (count k) e,
    count-split k before after job,
    count-cons k job (before ++ after),
    count-cons k job s.finished,
  )
  Step-Balanced {s} (stop jobs live e) h = omega (
    arith,
    h,
    count-nil k,
    count-append k jobs s.claimed,
    count-append k (jobs ++ in_hand s.phase) s.lost,
    count-append k jobs (in_hand s.phase),
  )

  Reach-Balanced : {s t : State} → Balanced s → Reach max_workers s t → Balanced t
  Reach-Balanced h here = h
  Reach-Balanced h (next r st) = Step-Balanced st (Reach-Balanced h r)

  start-Balanced : (permits : ℕ) → Balanced (init permits)
  unfolding everywhere
  start-Balanced permits = omega (arith, count-nil k)

  -- From the start on, each job that the orchestrator has handed to the agent stands in exactly one
  -- place, as often as it was handed over: in the response that the loop holds, among the tasks that
  -- wait, that run or that are over, or among the lost.
  pub jobs_conserved :
      {permits : ℕ} {t : State}
      → Reach max_workers (init permits) t
      → count k t.claimed ≡ everywhere k t
  jobs_conserved {permits} r = Reach-Balanced (start-Balanced permits) r
