-- ===== src/Orchestrator/Migrations/Declared.antt =====
-- The tables that models/*.py declare.
use turbocat.Prelude.{[], ◌∷◌}
use turbocat.Orchestrator.Migrations.{
  key, required, optional, foreign_key, created_at, uuid, timestamptz, jsonb, integer, boolean,
  long_text, varchar, SqlTable, Schema,
}

-- What `__tablename__` and the columns of the models say of their tables.
abbrev pub agent_table : SqlTable
agent_table = record {
  name = "agents";
  columns =
      key "agent_id"
      ∷ required "account_id" uuid
      ∷ optional "last_seen_at" timestamptz
      ∷ required "status" (varchar 20)
      ∷ created_at
      ∷ [];
}

abbrev pub connection_table : SqlTable
connection_table = record {
  name = "connections";
  columns =
      key "connection_id"
      ∷ required "account_id" uuid
      ∷ required "name" (varchar 255)
      ∷ required "source" (varchar 100)
      ∷ required "secret_ref" (varchar 255)
      ∷ required "status" (varchar 20)
      ∷ optional "last_tested_at" timestamptz
      ∷ created_at
      ∷ [];
}

abbrev pub pipeline_table : SqlTable
pipeline_table = record {
  name = "pipelines";
  columns =
      key "pipeline_id"
      ∷ required "account_id" uuid
      ∷ foreign_key "agent_id" "agents"
      ∷ foreign_key "connection_id" "connections"
      ∷ required "connector" (varchar 100)
      ∷ required "table_name" (varchar 255)
      ∷ required "schedule" (varchar 100)
      ∷ required "params" jsonb
      ∷ optional "state" jsonb
      ∷ required "is_active" boolean
      ∷ created_at
      ∷ [];
}

abbrev pub job_run_table : SqlTable
job_run_table = record {
  name = "job_runs";
  columns =
      key "job_id"
      ∷ foreign_key "pipeline_id" "pipelines"
      ∷ foreign_key "agent_id" "agents"
      ∷ required "status" (varchar 20)
      ∷ created_at
      ∷ optional "started_at" timestamptz
      ∷ optional "completed_at" timestamptz
      ∷ optional "rows_synced" integer
      ∷ optional "error" long_text
      ∷ [];
}

abbrev pub model_tables : Schema
model_tables = agent_table ∷ connection_table ∷ pipeline_table ∷ job_run_table ∷ []
