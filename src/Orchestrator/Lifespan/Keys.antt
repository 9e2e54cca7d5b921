-- ===== src/Orchestrator/Lifespan/Keys.antt =====
-- The primary key of pipelines: what the handlers write keeps the keys apart.
use turbocat.Prelude.{
  ℕ, ◌+◌, ◌≤◌, false, ◌≡◌, refl, sym, some, none, List, [], ◌∷◌, ◌++◌, ◌==◌, ==_iff, ==_refl, arith,
  All, All-append, Bool-cases, inl, inr,
}
use turbocat.Orchestrator.Table.{find, replace}
use turbocat.Orchestrator.Models.{Pipeline}
use turbocat.Orchestrator.Jobs.Status.{pipeline_key}
use turbocat.Orchestrator.Pipelines.{BulkCreateRequest, PipelineTableConfig, new_pipelines}
use turbocat.Orchestrator.App.Links.{All-map, All-replace}

module _ {ℓ} {A : Type ℓ} (key : A → ℕ) where
  abbrev pub Apart : A → A → Type 0
  Apart a b = (key a == key b) ≡ false

  -- No two rows have the same key.
  abbrev pub Distinct : List A → Type 0
  Distinct [] = Unit
  Distinct (a ∷ rows) = All (Apart a) rows × Distinct rows

  pub Distinct-replace : (new : A) (rows : List A) → Distinct rows → Distinct (replace key new rows)
  unfolding replace
  Distinct-replace new [] h = tt
  Distinct-replace new (a ∷ rows) (h, hs) = elim (Bool-cases (key a == key new)) [
    | inl same ↦
        let e : key a ≡ key new = (==_iff (key a) (key new)).0 same in
        rw same (All-map (λ b d. rw (sym e) d) rows h, hs)
    | inr other ↦
        rw other (All-replace key (Apart a) new rows other h, Distinct-replace new rows hs)
  ]

  pub Distinct-append :
      (xs ys : List A)
      → Distinct xs
      → Distinct ys
      → All (λ x. All (Apart x) ys) xs
      → Distinct (xs ++ ys)
  Distinct-append [] ys h k c = k
  Distinct-append (x ∷ xs) ys (h, hs) k (c, cs) =
      (All-append (Apart x) xs ys h c, Distinct-append xs ys hs k cs)

  below :
      (a : A) (rows more : List A)
      → All (Apart a) more
      → All (λ b. find key (key b) rows ≡ some b) more
      → All (λ b. find key (key b) (a ∷ rows) ≡ some b) more
  unfolding find
  below a rows [] h k = tt
  below a rows (b ∷ more) (h, hs) (k, ks) = (rw h k, below a rows more hs ks)

  -- A row is found under its own key.
  pub Distinct-find :
      (rows : List A) → Distinct rows → All (λ a. find key (key a) rows ≡ some a) rows
  unfolding find
  Distinct-find [] h = tt
  Distinct-find (a ∷ rows) (h, hs) =
      (rw (==_refl (key a)) refl, below a rows rows h (Distinct-find rows hs))

  pub find-append_left :
      (k : ℕ) (rows more : List A) (a : A)
      → find key k rows ≡ some a
      → find key k (rows ++ more) ≡ some a
  unfolding find
  find-append_left k [] more a h = cc
  find-append_left k (b ∷ rows) more a h = ground (arith, find-append_left k rows more a)

module _ (new_id : ℕ → ℕ) (account_id : ℕ) (body : BulkCreateRequest) where
  -- What holds of every row that has one of the new keys holds of all the new rows.
  new_keys :
      (P : ℕ → Type 0) (n : ℕ) (tables : List PipelineTableConfig)
      → ((i : ℕ) → n ≤ i → P (new_id i))
      → All (λ p. P (pipeline_key p)) (new_pipelines new_id account_id body n tables)
  unfolding new_pipelines
  new_keys P n [] f = tt
  new_keys P n (table ∷ tables) f =
      (f n (omega arith), new_keys P (n + 1) tables (λ i h. f i (omega arith)))

  pub new_pipelines-Distinct :
      ((i j : ℕ) → new_id i ≡ new_id j → i ≡ j)
      → (n : ℕ) (tables : List PipelineTableConfig)
      → Distinct pipeline_key (new_pipelines new_id account_id body n tables)
  unfolding new_pipelines
  new_pipelines-Distinct injective n [] = tt
  new_pipelines-Distinct injective n (table ∷ tables) = (
    new_keys (λ k. (new_id n == k) ≡ false) (n + 1) tables
        (λ i h. ground (arith, ==_iff (new_id n) (new_id i), injective n i)),
    new_pipelines-Distinct injective (n + 1) tables,
  )

  new_pipelines-Apart :
      (rows : List Pipeline) (tables : List PipelineTableConfig)
      → ((i : ℕ) → find pipeline_key (new_id i) rows ≡ none)
      → All (λ p. All (Apart pipeline_key p) (new_pipelines new_id account_id body 0 tables)) rows
  unfolding find
  new_pipelines-Apart [] tables unused = tt
  new_pipelines-Apart (p ∷ rows) tables unused = (
    new_keys (λ k. (pipeline_key p == k) ≡ false) 0 tables (λ i h. ground (arith, unused i)),
    new_pipelines-Apart rows tables (λ i. ground (arith, unused i)),
  )

  -- Rows with fresh keys keep the keys apart.
  pub added-Distinct :
      (rows : List Pipeline) (tables : List PipelineTableConfig)
      → ((i : ℕ) → find pipeline_key (new_id i) rows ≡ none)
      → ((i j : ℕ) → new_id i ≡ new_id j → i ≡ j)
      → Distinct pipeline_key rows
      → Distinct pipeline_key (rows ++ new_pipelines new_id account_id body 0 tables)
  added-Distinct rows tables unused injective h =
      Distinct-append pipeline_key rows _ h (new_pipelines-Distinct injective 0 tables)
        (new_pipelines-Apart rows tables unused)
