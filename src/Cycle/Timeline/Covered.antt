-- ===== src/Cycle/Timeline/Covered.antt =====
-- Windows one after the other on the line of time.
use turbocat.Prelude.{
  ℕ, ◌≤◌, ◌<◌, ◌≡◌, ◌⊎◌, inl, inr, none, some, List, [], ◌∷◌, leb, leb→le, arith, Bool-cases,
}
use turbocat.Orchestrator.Jobs.Payload.{JobPayload}

-- One of the windows ends at the instant.
abbrev pub Ends : List JobPayload → ℕ → Type 0
Ends [] e = ⊥
Ends (w ∷ windows) e = (w.end_time ≡ some e) ⊎ Ends windows e

-- The window has an end, and it has no start, or one that is not after the end of an earlier window.
abbrev pub Anchored : List JobPayload → JobPayload → Type 0
Anchored earlier w =
    (e : ℕ) × (w.end_time ≡ some e)
    × ((w.start_time ≡ none)
        ⊎ ((start e' : ℕ) × (w.start_time ≡ some start) × (start ≤ e') × Ends earlier e'))

-- The last window first.
abbrev pub Chain : List JobPayload → Type 0
Chain [] = Unit
Chain (w ∷ windows) = Anchored windows w × Chain windows

-- The window has a start and an end, and the instant lies between them.
abbrev pub Contains : JobPayload → ℕ → Type 0
Contains w t =
    (start e : ℕ) × (w.start_time ≡ some start) × (w.end_time ≡ some e) × (start ≤ t) × (t ≤ e)

-- The instant is later than the end of each window without a start.
abbrev pub AfterFirst : List JobPayload → ℕ → Type 0
AfterFirst [] t = Unit
AfterFirst (w ∷ windows) t =
    ((e : ℕ) → w.start_time ≡ none → w.end_time ≡ some e → e < t) × AfterFirst windows t

abbrev pub Covered : List JobPayload → ℕ → Type 0
Covered [] t = ⊥
Covered (w ∷ windows) t = Contains w t ⊎ Covered windows t

pub Anchored-cons :
    (x w : JobPayload) (earlier : List JobPayload) → Anchored earlier w → Anchored (x ∷ earlier) w
Anchored-cons x w earlier (e, ends, inl first) = (e, ends, inl first)
Anchored-cons x w earlier (e, ends, inr (start, e', starts, le, there)) =
    (e, ends, inr (start, e', starts, le, inr there))

-- From the last window without a start up to the end of any window of a chain, every instant is
-- covered.
pub Chain-Covered :
    (windows : List JobPayload) (e t : ℕ)
    → Chain windows
    → AfterFirst windows t
    → Ends windows e
    → t ≤ e
    → Covered windows t
Chain-Covered [] e t chain after ends before = absurd ends
Chain-Covered (w ∷ windows) e t (anchored, chain) (after, later) (inr ends) before =
    inr (Chain-Covered windows e t chain later ends before)
Chain-Covered (w ∷ windows) e t ((e', ends', inl first), chain) (after, later) (inl ends) before =
    absurd (omega (arith, after e first ends))
Chain-Covered (w ∷ windows) e t ((e', ends', inr (start, e″, starts, le, there)), chain)
      (after, later) (inl ends) before =
    elim (Bool-cases (leb start t)) [
      | inl inside ↦ inl (start, e, starts, ends, leb→le start t inside, before)
      | inr outside ↦
          inr (Chain-Covered windows e″ t chain later there (ground (arith, outside, le)))
    ]
