-- ===== src/Orchestrator/Jobs/Interleaving/Invariant.antt =====
-- What every step keeps, and that a selection keeps it.
use turbocat.Prelude.{
  ℕ, ◌+◌, ◌≤◌, ◌<◌, Bool, true, false, ◌≡◌, ◌⊎◌, inl, inr, refl, List, [], ◌∷◌, ◌++◌, All, ltb,
  ltb→lt, times, times-nil, times-cons, arith, ==_iff, str_eq, Bool-cases,
}
use turbocat.Orchestrator.Models.{JobRun}
use turbocat.Orchestrator.Models.JobStatus
use turbocat.Orchestrator.Jobs.Dispatch.{claimable, has_id, ids_of, claim}
use turbocat.Orchestrator.Jobs.Interleaving.{held, locked_by}

-- A row that was claimed is pending no more.
abbrev pub IsSettled : List ℕ → JobRun → Type 0
IsSettled claims j = (times j.job_id claims ≡ 0) ⊎ (str_eq j.status JobStatus.pending ≡ false)

pub record Inv (rows : List JobRun) (txs : List (List ℕ)) (claims : List ℕ) : Type 0 where
  pub keys : (k : ℕ) → times k (ids_of rows) ≤ 1
  pub single : (k : ℕ) → times k claims + held k txs ≤ 1
  pub known : (k : ℕ) → times k claims + held k txs ≤ times k (ids_of rows)
  pub settled : All (IsSettled claims) rows

pub held-nil : (k : ℕ) → held k [] ≡ 0
unfolding held
held-nil k = refl

held-cons :
    (k : ℕ) (ids : List ℕ) (txs : List (List ℕ)) → held k (ids ∷ txs) ≡ times k ids + held k txs
unfolding held
held-cons k ids txs = refl

pub held-split :
    (k : ℕ) (before after : List (List ℕ)) (ids : List ℕ)
    → held k (before ++ ids ∷ after) ≡ times k ids + held k (before ++ after)
unfolding held
held-split k [] after ids = refl
held-split k (b ∷ before) after ids = omega (arith, held-split k before after ids)

pub has_id-times : (k : ℕ) (ids : List ℕ) → has_id ids k ≡ false → times k ids ≡ 0
unfolding has_id times
has_id-times k [] h = refl
has_id-times k (i ∷ ids) h = ground (arith, has_id-times k ids)

times-has_id : (k : ℕ) (ids : List ℕ) → has_id ids k ≡ true → 0 < times k ids
unfolding has_id times
times-has_id k [] h = cc
times-has_id k (i ∷ ids) h = ground (arith, times-has_id k ids)

le_of_ltb : (a b : ℕ) → ltb a b ≡ false → b ≤ a
le_of_ltb a b h = ground arith

claimable_here :
    (locked : ℕ → Bool) (agent_id : ℕ) (j : JobRun)
    → claimable locked agent_id j ≡ true
    → str_eq j.status JobStatus.pending ≡ true
unfolding claimable
claimable_here locked agent_id j h = ground arith

-- A row that is pending was not claimed.
fresh_of :
    (j : JobRun) (k : ℕ) (claims : List ℕ)
    → IsSettled claims j
    → str_eq j.status JobStatus.pending ≡ true
    → j.job_id ≡ k
    → times k claims ≡ 0
fresh_of j k claims (inl never) pending e = rw (← e) never
fresh_of j k claims (inr done) pending e = absurd (ground arith)

module _ (locked : ℕ → Bool) (agent_id : ℕ) where
  claim-le :
      (k : ℕ) (rows : List JobRun) → times k (claim locked agent_id rows) ≤ times k (ids_of rows)
  unfolding claim
  claim-le k [] = omega arith
  claim-le k (j ∷ rows) = elim (Bool-cases (claimable locked agent_id j)) [
    | inl c ↦ rw c (
        omega (
          arith,
          claim-le k rows,
          times-cons k j.job_id (claim locked agent_id rows),
          times-cons k j.job_id (ids_of rows),
        ))
    | inr c ↦ rw c (omega (arith, claim-le k rows, times-cons k j.job_id (ids_of rows)))
  ]

  claim_locked :
      (k : ℕ) (rows : List JobRun) → locked k ≡ true → times k (claim locked agent_id rows) ≡ 0
  unfolding claim claimable times
  claim_locked k [] h = refl
  claim_locked k (j ∷ rows) h = ground (arith, claim_locked k rows h, ==_iff j.job_id k)

  claim_claimed :
      (k : ℕ) (claims : List ℕ) (rows : List JobRun)
      → All (IsSettled claims) rows
      → 0 < times k claims
      → times k (claim locked agent_id rows) ≡ 0
  unfolding claim
  claim_claimed k claims [] s h = times-nil k
  claim_claimed k claims (j ∷ rows) (s, ss) h = elim (Bool-cases (claimable locked agent_id j)) [
    | inr c ↦ rw c (claim_claimed k claims rows ss h)
    | inl c ↦ rw c (
        ground (
          arith,
          claim_claimed k claims rows ss h,
          ==_iff j.job_id k,
          times-cons k j.job_id (claim locked agent_id rows),
          fresh_of j k claims s (claimable_here locked agent_id j c),
        ))
  ]

module _ (rows : List JobRun) (txs : List (List ℕ)) (claims : List ℕ) (agent_id : ℕ)
    (v : Inv rows txs claims) where
  abbrev chosen : List ℕ
  chosen = claim (locked_by txs) agent_id rows

  -- What a selection adds stays under any bound that the rows and the claims so far keep.
  taken :
      (k n : ℕ)
      → times k (ids_of rows) ≤ n
      → times k claims + held k txs ≤ n
      → times k claims + held k (chosen ∷ txs) ≤ n
  taken k n few old = elim (Bool-cases (locked_by txs k)) [
    | inl locked ↦
        omega
          (arith, old, held-cons k chosen txs, claim_locked (locked_by txs) agent_id k rows locked)
    | inr free ↦ elim (Bool-cases (ltb 0 (times k claims))) [
      | inl before ↦ omega (
        arith,
        old,
        held-cons k chosen txs,
        claim_claimed (locked_by txs) agent_id k claims rows v.settled (ltb→lt 0 _ before),
      )
      | inr never ↦ omega (
        arith,
        few,
        held-cons k chosen txs,
        claim-le (locked_by txs) agent_id k rows,
        le_of_ltb 0 _ free,
        le_of_ltb 0 _ never,
      )
    ]
  ]

  pub select-Inv : Inv rows (chosen ∷ txs) claims
  select-Inv = record {
    keys = v.keys;
    single = λ k. taken k 1 (v.keys k) (v.single k);
    known = λ k. taken k (times k (ids_of rows)) (omega arith) (v.known k);
    settled = v.settled;
  }
