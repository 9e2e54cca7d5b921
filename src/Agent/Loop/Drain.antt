-- ===== src/Agent/Loop/Drain.antt =====
-- `drain` of agent.py, after the loop is stopped.
use turbocat.Prelude.{
  ℕ, zero, suc, ◌+◌, ◌*◌, ◌≤◌, ◌<◌, ◌≡◌, ◌⊎◌, inl, inr, refl, ap, ◌∙◌, List, [], ◌∷◌, length, arith,
}
use turbocat.Orchestrator.Jobs.Payload.{JobPayload}
use turbocat.Agent.Loop.{
  Phase, State, active, spawned, Step, ask, answer, fail, spawn, begin, end, stop, Reach, here,
  next,
}
use turbocat.Agent.Loop.Bounds.{slots, slots-Step, length-split}

-- The steps that the tasks still have to make.
abbrev pub left : State → ℕ
left s = length s.waiting * 2 + length s.running

List-cases :
    (xs : List JobPayload)
    → (xs ≡ []) ⊎ ((x : JobPayload) × (rest : List JobPayload) × (xs ≡ x ∷ rest))
List-cases [] = inl refl
List-cases (x ∷ rest) = inr (x, rest, refl)

some_permit : (n : ℕ) → 0 < n → (m : ℕ) × (n ≡ suc m)
some_permit zero h = absurd (omega arith)
some_permit (suc m) h = (m, refl)

module _ (max_workers : ℕ) where
  -- Every step of a stopped loop leaves it stopped, loses no job, and lowers the number of steps that
  -- the tasks still have to make: so the drain cannot be put off for ever.
  pub stopped-left :
      {s t : State}
      → s.phase ≡ Phase.stopped
      → Step max_workers s t
      → (t.phase ≡ Phase.stopped) × (left t < left s) × (t.lost ≡ s.lost)
  unfolding spawned
  stopped-left h (ask e _) = cc
  stopped-left h (answer jobs e) = cc
  stopped-left h (fail jobs e) = cc
  stopped-left h (spawn jobs e) = cc
  stopped-left {s} h (begin job before after permits e room) =
      (h, omega (arith, ap length e, length-split before after job), refl)
  stopped-left {s} h (end job before after e) =
      (h, omega (arith, ap length e, length-split before after job), refl)
  stopped-left h (stop jobs live e) = absurd (live h)

  earlier : {s t u : State} → Step max_workers s t → Reach max_workers t u → Reach max_workers s u
  earlier st here = next here st
  earlier st (next r last) = next (earlier st r) last

  Drained : State → Type 0
  Drained s = (t : State) × Reach max_workers s t × (active t ≡ 0) × (t.lost ≡ s.lost)

  first : {s t : State} → s.phase ≡ Phase.stopped → Step max_workers s t → Drained t → Drained s
  unfolding Drained
  first {s} h st (u, r, quiet, same) = (u, earlier st r, quiet, same ∙ (stopped-left h st).2)

  -- One step, and then all the others.
  ending :
      (fuel : ℕ) (s : State) → 0 < slots s → left s ≤ fuel → s.phase ≡ Phase.stopped → Drained s
  unfolding Drained
  ending zero s some_slot few h = (s, here, omega arith, refl)
  ending (suc fuel) s some_slot few h = elim (List-cases s.running) [
    | inr (job, rest, e) ↦
        let st : Step max_workers s _ = end job [] rest e in
        let (halted, less, _) = stopped-left h st in
        first h st
          (ending fuel _ (omega (arith, slots-Step max_workers st)) (omega (arith, less)) halted)
    | inl idle ↦ elim (List-cases s.waiting) [
      | inr (job, rest, e) ↦
          let (permits, room) = some_permit s.permits (omega (arith, ap length idle)) in
          let st : Step max_workers s _ = begin job [] rest permits e room in
          let (halted, less, _) = stopped-left h st in
          first h st
            (ending fuel _ (omega (arith, slots-Step max_workers st)) (omega (arith, less)) halted)
      | inl none_waits ↦ (s, here, rw (idle, none_waits) refl, refl)
    ]
  ]

  -- With at least one slot: once the loop is stopped, the tasks that there are can run to their end,
  -- all of them, and no more jobs are lost on the way.
  pub drain_ends :
      (s : State)
      → 0 < slots s
      → s.phase ≡ Phase.stopped
      → (t : State) × Reach max_workers s t × (active t ≡ 0) × (t.lost ≡ s.lost)
  unfolding Drained
  drain_ends s some_slot h = ending (left s) s some_slot (omega arith) h
