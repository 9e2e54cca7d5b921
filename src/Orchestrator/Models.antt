-- ===== src/Orchestrator/Models.antt =====
-- models/*.py: the rows of the four tables. A UUID is a number, an instant the microseconds of it.
pub mod ConnectionStatus
pub mod JobStatus
use turbocat.Prelude.{ℕ, String, Bool, Option, List}
use turbocat.Python.Dict.{Dict}
use turbocat.Python.Value.{ℤ, Value}

pub record Agent : Type 0 where
  pub agent_id : ℕ
  pub account_id : ℕ
  pub last_seen_at : Option ℕ
  pub status : String

pub record Connection : Type 0 where
  pub connection_id : ℕ
  pub account_id : ℕ
  pub name : String
  pub source : String
  pub secret_ref : String
  pub status : String
  pub last_tested_at : Option ℕ
  pub created_at : ℕ

pub record Pipeline : Type 0 where
  pub pipeline_id : ℕ
  pub account_id : ℕ
  pub agent_id : ℕ
  pub connection_id : ℕ
  pub connector : String
  pub table_name : String
  pub schedule : String
  pub params : Dict Value
  pub state : Option (Dict Value)
  pub is_active : Bool

pub record JobRun : Type 0 where
  pub job_id : ℕ
  pub pipeline_id : ℕ
  pub agent_id : ℕ
  pub status : String
  pub started_at : Option ℕ
  pub completed_at : Option ℕ
  pub rows_synced : Option ℤ
  pub error : Option String

pub record Db : Type 0 where
  pub agents : List Agent
  pub connections : List Connection
  pub pipelines : List Pipeline
  pub job_runs : List JobRun
