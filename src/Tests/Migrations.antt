-- ===== src/Tests/Migrations.antt =====
-- The migrations on a schema that has a table of another service.
use turbocat.Prelude.{
  eq_iff, str_eq, Bool-cases, inl, inr, ap, ◌∙◌, String, true, false, ◌≡◌, refl, [], ◌∷◌, ok,
  Result, err,
}
use turbocat.Orchestrator.Migrations.{SqlTable, Schema, has_table}
use turbocat.Orchestrator.Migrations.Revisions.{Revision, upgrade, downgrade, upgrade_head}
use turbocat.Orchestrator.Migrations.Declared.{model_tables}
use turbocat.Orchestrator.Migrations.Undoing.{downgrade-upgrade}
use turbocat.Orchestrator.Migrations.Agreement.{Agrees, upgrade_head-Agrees}

abbrev users : SqlTable
users = record { name = "users"; columns = [] }

apart : (name : String) → has_table name model_tables ≡ true → has_table name (users ∷ []) ≡ false
unfolding has_table
apart name h = elim (Bool-cases (str_eq "users" name)) [
  | inl same ↦
      let e = (eq_iff "users" name).0 same in
      let h' : false ≡ true = ap (λ n. has_table n model_tables) e ∙ h in absurd cc
  | inr other ↦ rw other refl
]

upgrade_head-Agrees_example :
    (t : Schema) × (upgrade_head (users ∷ []) ≡ ok (users ∷ t)) × Agrees t model_tables
upgrade_head-Agrees_example = upgrade_head-Agrees (users ∷ []) apart

abbrev bare : Schema
bare = users ∷ record { name = "connections"; columns = [] } ∷ []

abbrev result : Result Schema → Schema
result (ok s) = s
result (err e) = []

abbrev named : Schema
unfolding upgrade
named = result (upgrade Revision.r0004 bare)

first_or_not : Revision.r0004 ≡ Revision.r0001 → bare ≡ []
first_or_not h = cc

downgrade-upgrade_example : downgrade Revision.r0004 named ≡ ok bare
unfolding upgrade named
downgrade-upgrade_example = downgrade-upgrade Revision.r0004 bare named first_or_not refl
