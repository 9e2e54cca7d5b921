-- ===== src/Orchestrator/Migrations/Agreement.antt =====
-- The schema that the migrations make holds the tables of the models, beside the tables of others.
use mathlib.Core.List.{Perm, perm_middle}
use mathlib.Core.List.Perm
use turbocat.Prelude.{
  String, true, false, ◌||◌, ◌≡◌, refl, ap, none, List, [], ◌∷◌, ◌++◌, map, Result, ok, err, str_eq,
  Bool-cases, Option-cases, append-nil, append_assoc, ◌>>=◌, >>=-eq-ok, ◌∙◌, sym, inl, inr, arith,
}
use turbocat.Orchestrator.Migrations.{
  SqlColumn, Schema, has_table, targets_exist, alter, create_table, add_column, drop_default,
}
use turbocat.Orchestrator.Migrations.Revisions.{
  Revision, upgrade, upgrade_0001, upgrade_head, agents_0001, connections_0001, pipelines_0001,
  job_runs_0001,
}
use turbocat.Orchestrator.Migrations.Declared.{model_tables}

-- A column but for its default, which the models mostly leave to Python.
abbrev declared : SqlColumn → SqlColumn
declared c = record c { server_default = none }

-- The same tables, each with the same columns in some order.
abbrev pub Agrees : Schema → Schema → Type 0
Agrees [] [] = Unit {0}
Agrees (t ∷ ts) (u ∷ us) =
    (t.name ≡ u.name) × Perm (map declared t.columns) (map declared u.columns) × Agrees ts us
Agrees _ _ = ⊥

has_table-append :
    (name : String) (a b : Schema) → has_table name (a ++ b) ≡ has_table name a || has_table name b
unfolding has_table
has_table-append name [] b = refl
has_table-append name (t ∷ ts) b = ground (arith, has_table-append name ts b)

targets_exist-append :
    (cs : List SqlColumn) (a b : Schema)
    → targets_exist cs b ≡ true
    → targets_exist cs (a ++ b) ≡ true
unfolding targets_exist
targets_exist-append [] a b h = refl
targets_exist-append (c ∷ cs) a b h = elim (Option-cases c.references) [
  | inl nowhere ↦ ground (arith, nowhere, targets_exist-append cs a b)
  | inr (other, there) ↦
      ground (arith, there, has_table-append other a b, targets_exist-append cs a b)
]

-- The operations leave the tables of others, which stand first, as they are.
create_table-append :
    (name : String) (cs : List SqlColumn) (a b t : Schema)
    → has_table name a ≡ false
    → create_table name cs b ≡ ok t
    → create_table name cs (a ++ b) ≡ ok (a ++ t)
unfolding create_table
create_table-append name cs a b t absent h = ground (
  arith,
  has_table-append name a b,
  targets_exist-append cs a b,
  append_assoc a b (record { name = name; columns = cs } ∷ []),
)

alter-append :
    (name : String) (f : List SqlColumn → Result (List SqlColumn)) (a b t : Schema)
    → has_table name a ≡ false
    → alter name f b ≡ ok t
    → alter name f (a ++ b) ≡ ok (a ++ t)
unfolding alter has_table
alter-append name f [] b t absent h = h
alter-append name f (u ∷ us) b t absent h = elim (Bool-cases (str_eq u.name name)) [
  | inl here ↦ absurd (ground (arith, here, absent))
  | inr there ↦ rw (there, alter-append name f us b t (ground (arith, there, absent)) h) refl
]

module _ (s : Schema) where
  -- What the function does to a schema it does in the same way beside the tables of `s`.
  abbrev Frames : (Schema → Result Schema) → Type 0
  Frames f = (b t : Schema) → f b ≡ ok t → f (s ++ b) ≡ ok (s ++ t)

  Frames->>= : (f g : Schema → Result Schema) → Frames f → Frames g → Frames (λ b. f b >>= g)
  Frames->>= f g framed framed' b t h =
      let (m, once, twice) = >>=-eq-ok (f b) g h in
      ap (λ r. r >>= g) (framed b m once) ∙ framed' m t twice

  module _
      (free : (name : String) → has_table name model_tables ≡ true → has_table name s ≡ false) where
    create-Frames :
        (name : String) (cs : List SqlColumn)
        → has_table name model_tables ≡ true
        → Frames (create_table name cs)
    create-Frames name cs named b t = create_table-append name cs s b t (free name named)

    alter-Frames :
        (name : String) (f : List SqlColumn → Result (List SqlColumn))
        → has_table name model_tables ≡ true
        → Frames (alter name f)
    alter-Frames name f named b t = alter-append name f s b t (free name named)

    upgrade_0001-Frames : Frames upgrade_0001
    unfolding upgrade_0001
    upgrade_0001-Frames =
        Frames->>= (create_table "agents" agents_0001) _ (create-Frames "agents" agents_0001 refl) (
          Frames->>= (create_table "connections" connections_0001) _
            (create-Frames "connections" connections_0001 refl)
            (Frames->>= (create_table "pipelines" pipelines_0001)
              (create_table "job_runs" job_runs_0001)
              (create-Frames "pipelines" pipelines_0001 refl)
              (create-Frames "job_runs" job_runs_0001 refl)))

    upgrade-Frames : (r : Revision) → Frames (upgrade r)
    unfolding upgrade
    upgrade-Frames Revision.r0001 = upgrade_0001-Frames
    upgrade-Frames Revision.r0002 = alter-Frames "pipelines" _ refl
    upgrade-Frames Revision.r0003 = alter-Frames "connections" _ refl
    upgrade-Frames Revision.r0004 =
        Frames->>= (add_column "connections" _) (drop_default "connections" "name")
          (alter-Frames "connections" _ refl) (alter-Frames "connections" _ refl)

    upgrade_head-Frames : Frames upgrade_head
    unfolding upgrade_head
    upgrade_head-Frames = Frames->>= (upgrade Revision.r0001) _ (upgrade-Frames Revision.r0001) (
        Frames->>= (upgrade Revision.r0002) _ (upgrade-Frames Revision.r0002) (
          Frames->>= (upgrade Revision.r0003) (upgrade Revision.r0004)
            (upgrade-Frames Revision.r0003) (upgrade-Frames Revision.r0004)))

-- The tables of `alembic upgrade head` on an empty database.
abbrev head_tables : Schema
unfolding upgrade_head
head_tables = elim (upgrade_head []) [ err _ ↦ [] | ok t ↦ t ]

-- The columns that later revisions append stand in their places among those of the models.
head_tables-Agrees : Agrees head_tables model_tables
unfolding head_tables
head_tables-Agrees = (
  refl,
  Perm.refl _,
  (
    refl,
    Perm.cons _ (
        Perm.cons _ (
          Perm.trans (perm_middle (_ ∷ _ ∷ _ ∷ _ ∷ _ ∷ []) [])
            (Perm.cons _ (Perm.cons _ (Perm.cons _ (Perm.cons _ (Perm.swap _ _ []))))))),
    (
      refl,
      Perm.cons _ (
          Perm.cons _ (
            Perm.cons _ (
              Perm.cons _ (
                Perm.cons _
                  (Perm.cons _ (Perm.cons _ (Perm.cons _ (perm_middle (_ ∷ _ ∷ []) [])))))))),
      (refl, Perm.refl _, tt),
    ),
  ),
)

-- Into any schema that has no table of the models' names: the four upgrades succeed, leave the tables
-- that are there as they are, and add after them the tables that the models declare, with the same
-- names, and with the same columns but for their order and their defaults.
pub upgrade_head-Agrees :
    (s : Schema)
    → ((name : String) → has_table name model_tables ≡ true → has_table name s ≡ false)
    → (t : Schema) × (upgrade_head s ≡ ok (s ++ t)) × Agrees t model_tables
unfolding upgrade_head
upgrade_head-Agrees s free =
    let added = upgrade_head-Frames s free [] head_tables refl in
    (head_tables, ap upgrade_head (sym (append-nil s)) ∙ added, head_tables-Agrees)
