-- ===== src/Tests/Control.antt =====
-- The routes of the orchestrator over a table of two jobs.
use mathlib.Core.Option
use mathlib.Core.List.{Perm}
use mathlib.Core.List.Perm
use turbocat.Prelude.{
  ℕ, ◌*◌, String, true, false, ◌&&◌, str_eq, ◌≡◌, refl, none, some, [], ◌∷◌, map, ok, err, is_ok,
  ◌==◌, if◌then◌else◌,
}
use turbocat.Python.Dict.{Dict, get?}
use turbocat.Python.Value.{pos, int, Value, text, truthy}
use turbocat.Python.Time.{day, minus_days}
use turbocat.Orchestrator.Table.{find}
use turbocat.Orchestrator.Models.{Connection, Pipeline, JobRun, Db}
use turbocat.Orchestrator.Jobs.Payload.{
  JobPayload, Services, lookback_of, minus_lookback, parse_time, payloads,
}
use turbocat.Orchestrator.Jobs.Status.{StatusUpdate, job_key, pipeline_key, update_job_status}
use turbocat.Orchestrator.Jobs.Status.Effect.{reported_job, carries, update_job_status_effect}
use turbocat.Orchestrator.Jobs.Dispatch.{claim, get_pending_jobs}
use turbocat.Orchestrator.Jobs.Dispatch.Claims.{unlocked}
use turbocat.Orchestrator.Jobs.Dispatch.Delivery.{get_pending_jobs_delivers}
use turbocat.Tests.Fixtures.{bad, now, from_iso}

abbrev pub services : Services
services = record {
  fromisoformat = from_iso;
  minus_float_days = λ _ _. err bad;
  row_order = λ rows. rows;
  get_secret = λ _. ok (("api_key", "k") ∷ []);
}

abbrev pub connection : Connection
connection = record {
  connection_id = 1;
  account_id = 1;
  name = "razorpay";
  source = "razorpay";
  secret_ref = "orchestrator/1/razorpay";
  status = "active";
  last_tested_at = none;
  created_at = 0;
}

abbrev cursor : Dict Value
cursor = ("last_sync_at", text "day 10") ∷ []

abbrev pub pipeline : Pipeline
pipeline = record {
  pipeline_id = 5;
  account_id = 1;
  agent_id = 1;
  connection_id = 1;
  connector = "razorpay_orders";
  table_name = "razorpay_orders";
  schedule = "0 * * * *";
  params = ("lookback_days", int (pos 3)) ∷ [];
  state = some cursor;
  is_active = true;
}

abbrev pub job_of : ℕ → ℕ → String → JobRun
job_of id agent_id status = record {
  job_id = id;
  pipeline_id = 5;
  agent_id = agent_id;
  status = status;
  started_at = none;
  completed_at = none;
  rows_synced = none;
  error = none;
}

abbrev pub db : Db
db = record {
  agents = [];
  connections = connection ∷ [];
  pipelines = pipeline ∷ [];
  job_runs = job_of 1 1 "pending" ∷ job_of 2 2 "pending" ∷ [];
}

abbrev pub payload : JobPayload
payload = record {
  job_id = 1;
  pipeline_id = 5;
  connector = "razorpay_orders";
  params = ("lookback_days", int (pos 3)) ∷ [];
  credentials = ("api_key", "k") ∷ [];
  start_time = some (7 * day);
  end_time = some now;
  state = cursor;
}

get_pending_jobs_delivers_example :
    Perm (map (λ (p : JobPayload). p.job_id) (payload ∷ [])) (claim unlocked 1 db.job_runs)
unfolding get_pending_jobs payloads find get? truthy parse_time minus_lookback lookback_of
    minus_days
get_pending_jobs_delivers_example =
    get_pending_jobs_delivers services unlocked now 1 db (payload ∷ []) (refl, (refl, tt))
      (λ rows. Perm.refl rows) refl

-- The cursor is not a time, so the first poll raises.
abbrev stranded : Db
stranded = record db {
  pipelines = record pipeline { state = some (("last_sync_at", text "soon") ∷ []) } ∷ [];
}

stranded_test : is_ok (get_pending_jobs services unlocked now 1 stranded).0 ≡ false
unfolding get_pending_jobs payloads find get? truthy parse_time
stranded_test = refl

abbrev success : StatusUpdate
success = record {
  status = "success";
  rows_synced = some (pos 3);
  error = none;
  next_state = some (("last_sync_at", text "day 11") ∷ []);
}

update_job_status_effect_example :
    let db' = (update_job_status 9 1 success db).1 in
    ((k : ℕ)
      → find job_key k db'.job_runs ≡ (
          if 1 == k
          then some (reported_job 9 success (job_of 1 1 "pending"))
          else find job_key k db.job_runs))
    × ((k : ℕ)
        → find pipeline_key k db'.pipelines ≡ (
            if 5 == k && str_eq success.status "success" && carries success.next_state
            then Option.map
                (λ (p : Pipeline). record p { state = success.next_state })
                (find pipeline_key k db.pipelines)
            else find pipeline_key k db.pipelines))
    × (db'.connections ≡ db.connections)
    × (db'.agents ≡ db.agents)
unfolding update_job_status find
update_job_status_effect_example =
    update_job_status_effect 9 1 success db (job_of 1 1 "pending") refl refl
