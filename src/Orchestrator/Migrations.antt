-- ===== src/Orchestrator/Migrations.antt =====
-- What the migrations use of SQL: a schema as its tables, and the statements that alembic's operations
-- run. They refuse to create what there is, and to drop or alter what there is not or what a foreign
-- key needs. Indexes are left out. The four revisions are in Revisions,
-- the models' tables in Declared.
pub mod Revisions
pub mod Declared
pub mod Undoing
pub mod Agreement
use turbocat.Prelude.{
  ℕ, String, Bool, true, false, not, ◌&&◌, ◌||◌, ◌≡◌, Option, none, some, List, [], ◌∷◌, ◌++◌, map,
  filter, Result, ok, err, Exc, foreign, str_eq, if◌then◌else◌, ◌>>=◌,
}

-- The types of the columns.
pub data SqlType : Type 0 where
  uuid timestamptz jsonb integer boolean long_text : SqlType
  varchar : ℕ → SqlType

pub record SqlColumn : Type 0 where
  pub name : String
  pub type : SqlType
  pub nullable : Bool
  pub primary_key : Bool
  pub references : Option String
  pub server_default : Option String

pub record SqlTable : Type 0 where
  pub name : String
  pub columns : List SqlColumn

-- Columns as the revisions and the models write them.
abbrev pub key : String → SqlColumn
key name = record {
  name = name;
  type = uuid;
  nullable = false;
  primary_key = true;
  references = none;
  server_default = none;
}

abbrev pub required : String → SqlType → SqlColumn
required name type = record {
  name = name;
  type = type;
  nullable = false;
  primary_key = false;
  references = none;
  server_default = none;
}

abbrev pub optional : String → SqlType → SqlColumn
optional name type = record (required name type) { nullable = true }

abbrev pub foreign_key : String → String → SqlColumn
foreign_key name table = record (required name uuid) { references = some table }

abbrev pub with_default : String → SqlColumn → SqlColumn
with_default text c = record c { server_default = some text }

abbrev pub created_at : SqlColumn
created_at = with_default "now()" (required "created_at" timestamptz)

-- The tables of pipeline_schema, in the order of their creation.
abbrev pub Schema : Type 0
Schema = List SqlTable

abbrev pub refused : Exc
refused = record { kind = foreign; text = "ProgrammingError" }

unfoldable pub has_table : String → Schema → Bool
has_table name [] = false
has_table name (t ∷ ts) = str_eq t.name name || has_table name ts

unfoldable pub has_column : String → List SqlColumn → Bool
has_column name [] = false
has_column name (c ∷ cs) = str_eq c.name name || has_column name cs

-- Does a column of the tables refer to the table?
abbrev pub refers : String → List SqlColumn → Bool
refers name [] = false
refers name (c ∷ cs) =
    elim c.references [ none ↦ false | some other ↦ str_eq other name ] || refers name cs

unfoldable pub is_referenced : String → Schema → Bool
is_referenced name [] = false
is_referenced name (t ∷ ts) =
    (not (str_eq t.name name) && refers name t.columns) || is_referenced name ts

unfoldable pub targets_exist : List SqlColumn → Schema → Bool
unfolding has_table
targets_exist [] schema = true
targets_exist (c ∷ cs) schema =
    elim c.references [ none ↦ true | some other ↦ has_table other schema ]
    && targets_exist cs schema

-- op.create_table
unfoldable pub create_table : String → List SqlColumn → Schema → Result Schema
unfolding has_table targets_exist
create_table name columns schema =
    if has_table name schema || not (targets_exist columns schema)
    then err refused
    else ok (schema ++ record { name = name; columns = columns } ∷ [])

-- op.drop_table
unfoldable pub drop_table : String → Schema → Result Schema
unfolding has_table is_referenced
drop_table name schema =
    if has_table name schema && not (is_referenced name schema)
    then ok (filter (λ t. not (str_eq t.name name)) schema)
    else err refused

-- DROP SCHEMA IF EXISTS, which refuses one that holds a table.
unfoldable pub drop_schema : Schema → Result Schema
drop_schema [] = ok []
drop_schema (t ∷ ts) = err refused

-- The columns of one table, changed.
unfoldable pub alter : String → (List SqlColumn → Result (List SqlColumn)) → Schema → Result Schema
alter name change [] = err refused
alter name change (t ∷ ts) =
    if str_eq t.name name
    then (do columns ← change t.columns; ok (record t { columns = columns } ∷ ts))
    else (do rest ← alter name change ts; ok (t ∷ rest))

-- op.add_column
unfoldable pub add_column : String → SqlColumn → Schema → Result Schema
unfolding alter has_column
add_column table column =
    alter table (λ cs. if has_column column.name cs then err refused else ok (cs ++ column ∷ []))

-- op.drop_column
unfoldable pub drop_column : String → String → Schema → Result Schema
unfolding alter has_column
drop_column table name = alter table (λ cs.
    if has_column name cs then ok (filter (λ c. not (str_eq c.name name)) cs) else err refused)

abbrev pub without_default : String → List SqlColumn → List SqlColumn
without_default name =
    map (λ c. if str_eq c.name name then record c { server_default = none } else c)

-- op.alter_column(table, name, server_default=None)
unfoldable pub drop_default : String → String → Schema → Result Schema
unfolding alter has_column
drop_default table name =
    alter table (λ cs. if has_column name cs then ok (without_default name cs) else err refused)
