-- ===== src/Orchestrator/Table.antt =====
-- A database table as the list of its rows, by their primary keys.
use turbocat.Prelude.{
  ℕ, ◌≡◌, refl, Option, none, some, List, [], ◌∷◌, ◌++◌, ◌==◌, if◌then◌else◌, arith,
}

module _ {ℓ} {A : Type ℓ} (key : A → ℕ) where
  -- db.get(Model, k)
  unfoldable pub find : ℕ → List A → Option A
  find k [] = none
  find k (row ∷ rows) = if key row == k then some row else find k rows

  -- A flushed change of a row that was read from the table.
  unfoldable pub replace : A → List A → List A
  replace new [] = []
  replace new (row ∷ rows) = if key row == key new then new ∷ rows else row ∷ replace new rows

  pub find-key : (k : ℕ) (rows : List A) (row : A) → find k rows ≡ some row → key row ≡ k
  unfolding find
  find-key k [] row h = cc
  find-key k (r ∷ rows) row h = ground (arith, find-key k rows row)

  pub find-replace :
      (k : ℕ) (new old : A) (rows : List A)
      → find (key new) rows ≡ some old
      → find k (replace new rows) ≡ (if key new == k then some new else find k rows)
  unfolding find replace
  find-replace k new old [] h = cc
  find-replace k new old (r ∷ rows) h = ground (arith, find-replace k new old rows)

  -- An insert of a row with a fresh key.
  pub find-append :
      (k : ℕ) (new : A) (rows : List A)
      → find (key new) rows ≡ none
      → find k (rows ++ new ∷ []) ≡ (if key new == k then some new else find k rows)
  unfolding find
  find-append k new [] h = refl
  find-append k new (r ∷ rows) h = ground (arith, find-append k new rows)
