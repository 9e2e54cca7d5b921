-- ===== src/Orchestrator/Migrations/Revisions.antt =====
-- migrations/versions: what the four revisions do, both ways.
use turbocat.Prelude.{List, [], ◌∷◌, Result, ◌>>=◌}
use turbocat.Orchestrator.Migrations.{
  key, required, optional, foreign_key, with_default, created_at, uuid, timestamptz, jsonb, integer,
  boolean, long_text, varchar, SqlColumn, Schema, create_table, drop_table, drop_schema, add_column,
  drop_column, drop_default,
}

abbrev pub agents_0001 : List SqlColumn
agents_0001 =
    key "agent_id"
    ∷ required "account_id" uuid
    ∷ optional "last_seen_at" timestamptz
    ∷ with_default "active" (required "status" (varchar 20))
    ∷ created_at
    ∷ []

abbrev pub connections_0001 : List SqlColumn
connections_0001 =
    key "connection_id"
    ∷ required "account_id" uuid
    ∷ required "source" (varchar 100)
    ∷ required "secret_ref" (varchar 255)
    ∷ with_default "active" (required "status" (varchar 20))
    ∷ created_at
    ∷ []

abbrev pub pipelines_0001 : List SqlColumn
pipelines_0001 =
    key "pipeline_id"
    ∷ required "account_id" uuid
    ∷ foreign_key "agent_id" "agents"
    ∷ foreign_key "connection_id" "connections"
    ∷ required "connector" (varchar 100)
    ∷ required "table_name" (varchar 255)
    ∷ required "schedule" (varchar 100)
    ∷ with_default "{}" (required "params" jsonb)
    ∷ with_default "true" (required "is_active" boolean)
    ∷ created_at
    ∷ []

abbrev pub job_runs_0001 : List SqlColumn
job_runs_0001 =
    key "job_id"
    ∷ foreign_key "pipeline_id" "pipelines"
    ∷ foreign_key "agent_id" "agents"
    ∷ with_default "pending" (required "status" (varchar 20))
    ∷ created_at
    ∷ optional "started_at" timestamptz
    ∷ optional "completed_at" timestamptz
    ∷ optional "rows_synced" integer
    ∷ optional "error" long_text
    ∷ []

unfoldable pub upgrade_0001 : Schema → Result Schema
unfolding create_table
upgrade_0001 schema = do
  s1 ← create_table "agents" agents_0001 schema
  s2 ← create_table "connections" connections_0001 s1
  s3 ← create_table "pipelines" pipelines_0001 s2
  create_table "job_runs" job_runs_0001 s3

unfoldable pub downgrade_0001 : Schema → Result Schema
unfolding drop_table drop_schema
downgrade_0001 schema = do
  s1 ← drop_table "job_runs" schema
  s2 ← drop_table "pipelines" s1
  s3 ← drop_table "connections" s2
  s4 ← drop_table "agents" s3
  drop_schema s4

unfoldable pub upgrade_0002 : Schema → Result Schema
unfolding add_column
upgrade_0002 = add_column "pipelines" (optional "state" jsonb)

unfoldable pub downgrade_0002 : Schema → Result Schema
unfolding drop_column
downgrade_0002 = drop_column "pipelines" "state"

unfoldable pub upgrade_0003 : Schema → Result Schema
unfolding add_column
upgrade_0003 = add_column "connections" (optional "last_tested_at" timestamptz)

unfoldable pub downgrade_0003 : Schema → Result Schema
unfolding drop_column
downgrade_0003 = drop_column "connections" "last_tested_at"

unfoldable pub upgrade_0004 : Schema → Result Schema
unfolding add_column drop_default
upgrade_0004 schema = do
  filled ← add_column "connections" (with_default "" (required "name" (varchar 255))) schema
  drop_default "connections" "name" filled

unfoldable pub downgrade_0004 : Schema → Result Schema
unfolding drop_column
downgrade_0004 = drop_column "connections" "name"

pub data Revision : Type 0 where
  r0001 r0002 r0003 r0004 : Revision

unfoldable pub upgrade : Revision → Schema → Result Schema
unfolding upgrade_0001 upgrade_0002 upgrade_0003 upgrade_0004
upgrade Revision.r0001 = upgrade_0001
upgrade Revision.r0002 = upgrade_0002
upgrade Revision.r0003 = upgrade_0003
upgrade Revision.r0004 = upgrade_0004

unfoldable pub downgrade : Revision → Schema → Result Schema
unfolding downgrade_0001 downgrade_0002 downgrade_0003 downgrade_0004
downgrade Revision.r0001 = downgrade_0001
downgrade Revision.r0002 = downgrade_0002
downgrade Revision.r0003 = downgrade_0003
downgrade Revision.r0004 = downgrade_0004

-- `alembic upgrade head`
unfoldable pub upgrade_head : Schema → Result Schema
unfolding upgrade
upgrade_head schema = do
  s1 ← upgrade Revision.r0001 schema
  s2 ← upgrade Revision.r0002 s1
  s3 ← upgrade Revision.r0003 s2
  upgrade Revision.r0004 s3

-- `alembic downgrade base`
unfoldable pub downgrade_base : Schema → Result Schema
unfolding downgrade
downgrade_base schema = do
  s3 ← downgrade Revision.r0004 schema
  s2 ← downgrade Revision.r0003 s3
  s1 ← downgrade Revision.r0002 s2
  downgrade Revision.r0001 s1
