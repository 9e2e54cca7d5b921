-- ===== src/Orchestrator/Access.antt =====
-- What the routes for one row do first: `db.get`, the 404 and the 403.
use turbocat.Prelude.{
  ℕ, String, ◌≡◌, ◌↔◌, none, some, List, Result, ok, err, Exc, http_exception, ◌==◌, ==_iff,
  if◌then◌else◌, arith, Option-cases, inl, inr,
}
use turbocat.Orchestrator.Table.{find}
use turbocat.Orchestrator.Jobs.Status.{not_found}

abbrev pub forbidden : Exc
forbidden = record { kind = http_exception 403; text = "Forbidden" }

module _ {ℓ} {A : Type ℓ} (key account : A → ℕ) where
  unfoldable pub owned : String → ℕ → ℕ → List A → Result A
  owned detail account_id k rows = elim (find key k rows) [
    | none ↦ err (not_found detail)
    | some row ↦ if account row == account_id then ok row else err forbidden
  ]

  pub owned_iff :
      (detail : String) (account_id k : ℕ) (rows : List A) (row : A)
      → (owned detail account_id k rows ≡ ok row)
        ↔ ((find key k rows ≡ some row) × (account row ≡ account_id))
  unfolding owned
  owned_iff detail account_id k rows row = elim (Option-cases (find key k rows)) [
    | inl missing ↦ ground (arith, missing)
    | inr (r, found) ↦
        ground (arith, found, ==_iff (account r) account_id, ==_iff (account row) account_id)
  ]
