-- ===== src/Orchestrator/App/Links.antt =====
-- The foreign keys of the models: models/pipeline.py and models/job_run.py. No route deletes a row.
pub mod Tables
pub mod Handlers
pub mod Kept
use turbocat.Prelude.{
  ℕ, ◌≡◌, refl, subst, some, none, Option, List, [], ◌∷◌, ◌++◌, ◌==◌, ==_iff, if◌then◌else◌, arith,
  All, Bool-cases, inl, inr,
}
use turbocat.Orchestrator.Table.{find, replace}
use turbocat.Orchestrator.Models.{Agent, Connection, Pipeline, JobRun, Db}
use turbocat.Orchestrator.Auth.{agent_key}
use turbocat.Orchestrator.Jobs.Status.{pipeline_key}
use turbocat.Orchestrator.Pipelines.{connection_key}

-- The table has a row of that key.
unfoldable pub Known {ℓ} : {A : Type ℓ} → (A → ℕ) → List A → ℕ → Type ℓ
Known {A = A} key rows k = (row : A) × (find key k rows ≡ some row)

-- ForeignKey("agents.agent_id"), ForeignKey("connections.connection_id")
abbrev pub PipelineLinked : List Agent → List Connection → Pipeline → Type 0
PipelineLinked agents connections p =
    Known agent_key agents p.agent_id × Known connection_key connections p.connection_id

-- ForeignKey("pipelines.pipeline_id"), ForeignKey("agents.agent_id")
abbrev pub JobLinked : List Agent → List Pipeline → JobRun → Type 0
JobLinked agents pipelines j =
    Known pipeline_key pipelines j.pipeline_id × Known agent_key agents j.agent_id

pub record IsLinked (db : Db) : Type 0 where
  pub by_pipelines : All (PipelineLinked db.agents db.connections) db.pipelines
  pub by_jobs : All (JobLinked db.agents db.pipelines) db.job_runs

pub All-map {ℓ κ} :
    {A : Type ℓ} {P Q : A → Type κ} → ((a : A) → P a → Q a) → (xs : List A) → All P xs → All Q xs
All-map f [] h = tt
All-map f (x ∷ xs) h = (f x h.0, All-map f xs h.1)

module _ {ℓ} {A : Type ℓ} (key : A → ℕ) where
  pub Known-append : (rows more : List A) (k : ℕ) → Known key rows k → Known key (rows ++ more) k
  unfolding Known find
  Known-append [] more k (row, h) = cc
  Known-append (r ∷ rows) more k (row, h) = elim (Bool-cases (key r == k)) [
    | inl here ↦ (r, rw here refl)
    | inr there ↦
        let found : find key k rows ≡ some row = ground (arith, there, h) in
        rw there (Known-append rows more k (row, found))
  ]

  -- A row that is changed keeps its key.
  pub Known-replace :
      (new : A) (rows : List A) (k : ℕ) → Known key rows k → Known key (replace key new rows) k
  unfolding Known find replace
  Known-replace new [] k (row, h) = cc
  Known-replace new (r ∷ rows) k (row, h) = elim (Bool-cases (key r == key new)) [
    | inl same ↦ elim (Bool-cases (key new == k)) [
      | inl here ↦ (new, rw same (rw here refl))
      | inr there ↦ (
        row,
        ground
            (arith, same, there, h, ==_iff (key r) (key new), ==_iff (key r) k, ==_iff (key new) k),
      )
    ]
    | inr other ↦ elim (Bool-cases (key r == k)) [
      | inl here ↦ (r, rw other (rw here refl))
      | inr there ↦
          let found : find key k rows ≡ some row = ground (arith, there, h) in
          let (row', still) = Known-replace new rows k (row, found) in
          (row', rw other (rw there still))
    ]
  ]

  pub All-replace {κ} :
      (P : A → Type κ) (new : A) (rows : List A) → P new → All P rows → All P (replace key new rows)
  unfolding replace
  All-replace P new [] h hs = tt
  All-replace P new (r ∷ rows) h (k, hs) = elim (Bool-cases (key r == key new)) [
    | inl same ↦ rw same (h, hs)
    | inr other ↦ rw other (k, All-replace P new rows h hs)
  ]

  pub All-find {κ} :
      (P : A → Type κ) (rows : List A) (k : ℕ) (row : A)
      → find key k rows ≡ some row
      → All P rows
      → P row
  unfolding find
  All-find P [] k row h hs = cc
  All-find P (r ∷ rows) k row h (p, hs) = elim (Bool-cases (key r == k)) [
    | inl here ↦
        let same : some r ≡ some row = ground (arith, here, h) in
        let e : r ≡ row = cc in subst P e p
    | inr there ↦ All-find P rows k row (ground (arith, there, h)) hs
  ]
