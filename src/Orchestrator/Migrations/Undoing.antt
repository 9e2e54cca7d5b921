-- ===== src/Orchestrator/Migrations/Undoing.antt =====
-- A downgrade undoes its upgrade.
use turbocat.Prelude.{
  String, true, false, not, ◌≡◌, refl, ap, List, [], ◌∷◌, ◌++◌, filter, Result, ok, err, str_eq,
  eq_refl, Bool-cases, if◌then◌else◌, ◌>>=◌, >>=-eq-ok, ok_inj, ◌∙◌, sym, map-append, none, inl,
  inr, arith,
}
use turbocat.Orchestrator.Migrations.{
  SqlColumn, SqlTable, Schema, has_column, alter, add_column, without_default, refused,
}
use turbocat.Orchestrator.Migrations.Revisions.{
  Revision, upgrade, downgrade, upgrade_0001, downgrade_0001,
}

abbrev Change : Type 0
Change = List SqlColumn → Result (List SqlColumn)

module _ (name : String) (f : Change) (table : SqlTable) (ts : Schema) where
  alter_here :
      str_eq table.name name ≡ true
      → alter name f (table ∷ ts)
        ≡ (f table.columns >>= (λ columns. ok (record table { columns = columns } ∷ ts)))
  unfolding alter
  alter_here here = rw here refl

  alter_there :
      str_eq table.name name ≡ false
      → alter name f (table ∷ ts) ≡ (alter name f ts >>= (λ rest. ok (table ∷ rest)))
  unfolding alter
  alter_there there = rw there refl

module _ (name : String) (f g : Change) where
  -- Two changes of the table one after the other are one.
  alter-alter :
      (s m : Schema) {t : Schema}
      → alter name f s ≡ ok m
      → alter name g m ≡ ok t
      → alter name (λ cs. f cs >>= g) s ≡ ok t
  unfolding alter
  alter-alter [] m once twice = cc
  alter-alter (table ∷ ts) m once twice = elim (Bool-cases (str_eq table.name name)) [
    | inl here ↦
        let (ds, changed, e) =
          >>=-eq-ok (f table.columns) _ (sym (alter_here name f table ts here) ∙ once) in
        rw (alter_here name _ table ts here, changed)
          (sym (alter_here name g _ ts here) ∙ ap (alter name g) (ok_inj e) ∙ twice)
    | inr there ↦
        let (rest, changed, e) =
          >>=-eq-ok (alter name f ts) _ (sym (alter_there name f table ts there) ∙ once) in
        let (rest', again, e') =
          >>=-eq-ok (alter name g rest) _
            (sym (alter_there name g table rest there) ∙ ap (alter name g) (ok_inj e) ∙ twice) in
        rw (alter_there name _ table ts there, alter-alter ts rest changed again) e'
  ]

  alter-undone :
      ((cs ds : List SqlColumn) → f cs ≡ ok ds → g ds ≡ ok cs)
      → (s t : Schema) → alter name f s ≡ ok t
      → alter name g t ≡ ok s
  unfolding alter
  alter-undone undo [] t h = cc
  alter-undone undo (table ∷ ts) t h = elim (Bool-cases (str_eq table.name name)) [
    | inl here ↦
        let (ds, changed, e) =
          >>=-eq-ok (f table.columns) _ (sym (alter_here name f table ts here) ∙ h) in
        rw
          (
            sym (ok_inj e),
            alter_here name g (record table { columns = ds }) ts here,
            undo _ ds changed,
          )
          refl
    | inr there ↦
        let (rest, changed, e) =
          >>=-eq-ok (alter name f ts) _ (sym (alter_there name f table ts there) ∙ h) in
        rw (sym (ok_inj e), alter_there name g table rest there, alter-undone undo ts rest changed)
          refl
  ]

filter_absent :
    (name : String) (cs : List SqlColumn)
    → has_column name cs ≡ false
    → filter (λ c. not (str_eq c.name name)) cs ≡ cs
unfolding has_column
filter_absent name [] h = refl
filter_absent name (c ∷ cs) h = ground (arith, filter_absent name cs)

filter_added :
    (c : SqlColumn) (cs : List SqlColumn)
    → has_column c.name cs ≡ false
    → filter (λ d. not (str_eq d.name c.name)) (cs ++ c ∷ []) ≡ cs
unfolding has_column
filter_added c [] h = rw (eq_refl c.name) refl
filter_added c (d ∷ ds) h = ground (arith, filter_added c ds)

has_column-added : (c : SqlColumn) (cs : List SqlColumn) → has_column c.name (cs ++ c ∷ []) ≡ true
unfolding has_column
has_column-added c [] = rw (eq_refl c.name) refl
has_column-added c (d ∷ ds) = ground (arith, has_column-added c ds)

without_default_absent :
    (name : String) (cs : List SqlColumn)
    → has_column name cs ≡ false
    → without_default name cs ≡ cs
unfolding has_column
without_default_absent name [] h = refl
without_default_absent name (c ∷ cs) h = ground (arith, without_default_absent name cs)

-- The columns, as `add_column` and `drop_column` change them.
abbrev adding : SqlColumn → Change
adding c cs = if has_column c.name cs then err refused else ok (cs ++ c ∷ [])

abbrev dropping : String → Change
dropping name cs =
    if has_column name cs then ok (filter (λ c. not (str_eq c.name name)) cs) else err refused

abbrev undefaulting : String → Change
undefaulting name cs = if has_column name cs then ok (without_default name cs) else err refused

adding_fresh :
    (c : SqlColumn) (cs ds : List SqlColumn)
    → adding c cs ≡ ok ds
    → (has_column c.name cs ≡ false) × (cs ++ c ∷ [] ≡ ds)
adding_fresh c cs ds h = ground arith

dropping-adding :
    (c : SqlColumn) (cs ds : List SqlColumn) → adding c cs ≡ ok ds → dropping c.name ds ≡ ok cs
dropping-adding c cs ds h =
    let (fresh, e) = adding_fresh c cs ds h in
    rw (sym e, has_column-added c cs, filter_added c cs fresh) refl

dropping-undefaulting :
    (c : SqlColumn) (cs ds : List SqlColumn)
    → (adding c cs >>= undefaulting c.name) ≡ ok ds
    → dropping c.name ds ≡ ok cs
dropping-undefaulting c cs ds h =
    let (ms, added, cleared) = >>=-eq-ok (adding c cs) _ h in
    let (fresh, e) = adding_fresh c cs ms added in
    let bare : SqlColumn = record c { server_default = none } in
    let same : without_default c.name (cs ++ c ∷ []) ≡ cs ++ bare ∷ [] =
      rw (map-append, without_default_absent c.name cs fresh, eq_refl c.name) refl in
    let e' : ok (cs ++ bare ∷ []) ≡ ok ds =
      sym (ap ok same)
      ∙ sym (rw (has_column-added c cs) refl)
      ∙ ap (undefaulting c.name) e
      ∙ cleared in
    rw (sym (ok_inj e'), has_column-added bare cs, filter_added bare cs fresh) refl

init_undone : (t : Schema) → upgrade_0001 [] ≡ ok t → downgrade_0001 t ≡ ok []
unfolding upgrade_0001 downgrade_0001
init_undone t h = rw (sym (ok_inj h)) refl

-- From any schema, but for the first revision only from the empty one, since its downgrade also
-- drops the schema: the downgrade of a revision gives back the schema that its upgrade was given.
pub downgrade-upgrade :
    (r : Revision) (s t : Schema)
    → (r ≡ Revision.r0001 → s ≡ [])
    → upgrade r s ≡ ok t
    → downgrade r t ≡ ok s
unfolding upgrade downgrade
downgrade-upgrade Revision.r0001 s t base h =
    let empty = base refl in init_undone t (ap upgrade_0001 (sym empty) ∙ h) ∙ ap ok (sym empty)
downgrade-upgrade Revision.r0002 s t base h =
    alter-undone "pipelines" (adding _) (dropping "state") (dropping-adding _) s t h
downgrade-upgrade Revision.r0003 s t base h =
    alter-undone "connections" (adding _) (dropping "last_tested_at") (dropping-adding _) s t h
downgrade-upgrade Revision.r0004 s t base h =
    let (m, once, twice) = >>=-eq-ok (add_column "connections" _ s) _ h in
    alter-undone "connections" _ (dropping "name") (dropping-undefaulting _) s t
      (alter-alter "connections" (adding _) (undefaulting "name") s m once twice)
