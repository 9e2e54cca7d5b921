-- ===== src/Orchestrator/Jobs/Payload.antt =====
-- The payload of a dispatched job: the window of the sync from the pipeline's cursor.
pub mod Window
use turbocat.Prelude.{
  ℕ, zero, suc, String, Bool, true, false, ◌≡◌, refl, Option, none, some, List, [], ◌∷◌, Result, ok,
  err, Exc, type_error, attribute_error, ◌>>=◌, if◌then◌else◌,
}
use turbocat.Python.Dict.{Dict, get?}
use turbocat.Python.Value.{ℤ, pos, negsuc, Value, int, bool, float, text, truthy}
use turbocat.Python.Time.{minus_days}
use turbocat.Orchestrator.Table.{find}
use turbocat.Orchestrator.Models.{Connection, Pipeline, JobRun, Db}

pub record JobPayload : Type 0 where
  pub job_id : ℕ
  pub pipeline_id : ℕ
  pub connector : String
  pub params : Dict Value
  pub credentials : Dict String
  pub start_time : Option ℕ
  pub end_time : Option ℕ
  pub state : Dict Value

-- What the handler takes from outside: `datetime.fromisoformat`, a shift by a float number of days,
-- `get_secret`, and the order in which PostgreSQL gives the rows of a query without ORDER BY.
pub record Services : Type 0 where
  pub fromisoformat : String → Result ℕ
  pub minus_float_days : ℕ → ℕ → Result ℕ
  pub get_secret : String → Result (Dict String)
  pub row_order : List JobRun → List JobRun

abbrev pub no_such_row : Exc
no_such_row = record { kind = attribute_error; text = "'NoneType' object has no attribute" }

abbrev pub bad_days : Exc
bad_days = record { kind = type_error; text = "unsupported type for timedelta days component" }

abbrev pub not_text : Exc
not_text = record { kind = type_error; text = "fromisoformat: argument must be str" }

-- pipeline.state or {}
abbrev pub state_or_empty : Option (Dict Value) → Dict Value
state_or_empty none = []
state_or_empty (some d) = d

-- params.get("lookback_days", 7)
unfoldable pub lookback_of : Dict Value → Value
lookback_of params = elim (get? "lookback_days" params) [ none ↦ int (pos 7) | some v ↦ v ]

module _ (services : Services) where
  open services use {fromisoformat, minus_float_days, get_secret}

  -- last_sync - timedelta(days=lookback_days)
  unfoldable pub minus_lookback : ℕ → Value → Result ℕ
  minus_lookback t (int n) = minus_days t n
  minus_lookback t (bool true) = minus_days t (pos 1)
  minus_lookback t (bool false) = minus_days t (pos 0)
  minus_lookback t (float b) = minus_float_days t b
  minus_lookback t _ = err bad_days

  unfoldable pub parse_time : Value → Result ℕ
  parse_time (text s) = fromisoformat s
  parse_time _ = err not_text

  -- The start of the window: none on a first run.
  unfoldable pub start_of : Dict Value → Dict Value → Result (Option ℕ)
  start_of state params = elim (get? "last_sync_at" state) [
    | none ↦ ok none
    | some v ↦
        if truthy v
        then (do
          last_sync ← parse_time v
          t ← minus_lookback last_sync (lookback_of params)
          ok (some t))
        else ok none
  ]

  unfoldable pub payload_of : ℕ → JobRun → Pipeline → Connection → Result JobPayload
  unfolding start_of
  payload_of now job pipeline connection = do
    start_time ← start_of (state_or_empty pipeline.state) pipeline.params
    credentials ← get_secret connection.secret_ref
    ok (record {
      job_id = job.job_id;
      pipeline_id = job.pipeline_id;
      connector = pipeline.connector;
      params = pipeline.params;
      credentials = credentials;
      start_time = start_time;
      end_time = some now;
      state = state_or_empty pipeline.state;
    })

  -- job.pipeline and job.pipeline.connection
  unfoldable pub with_relations : ℕ → Db → JobRun → Result JobPayload
  unfolding payload_of
  with_relations now db job = elim (find (λ p. p.pipeline_id) job.pipeline_id db.pipelines) [
    | none ↦ err no_such_row
    | some p ↦ elim (find (λ c. c.connection_id) p.connection_id db.connections) [
      | none ↦ err no_such_row
      | some c ↦ payload_of now job p c
    ]
  ]

  unfoldable pub payloads : ℕ → Db → List JobRun → Result (List JobPayload)
  unfolding with_relations
  payloads now db [] = ok []
  payloads now db (job ∷ jobs) = do
    p ← with_relations now db job
    ps ← payloads now db jobs
    ok (p ∷ ps)
