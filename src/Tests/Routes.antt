-- ===== src/Tests/Routes.antt =====
-- The scheduler and the other routes of the orchestrator.
use turbocat.Prelude.{
  ℕ, String, true, false, ◌≡◌, refl, Option, none, some, [], ◌∷◌, Result, ok, err, ◌==◌, str_eq,
  if◌then◌else◌,
}
use turbocat.Orchestrator.Table.{find}
use turbocat.Orchestrator.Models.{Agent, Db}
use turbocat.Orchestrator.Scheduler as Scheduler
use turbocat.Orchestrator.Scheduler.{
  Cron, CronJob, schedule_id, active, load_schedules, enqueue_job,
}
use turbocat.Orchestrator.Scheduler.Schedules.{enqueue_job-claim}
use turbocat.Orchestrator.Jobs.Status.{pipeline_key}
use turbocat.Orchestrator.Jobs.Dispatch.{claim, has_id}
use turbocat.Orchestrator.Jobs.Dispatch.Claims.{unlocked}
use turbocat.Orchestrator.Pipelines.{
  PipelineTableConfig, BulkCreateRequest, get_pipeline, deactivate_pipeline,
}
use turbocat.Orchestrator.Pipelines.Routes.{deactivate_pipeline_effect}
use turbocat.Tests.Fixtures.{bad}
use turbocat.Tests.Control.{pipeline, db}

-- A scheduler that is a function from ids.
abbrev pub Board : Type 0
Board = String → Option (CronJob ℕ)

abbrev pub crontab : String → Result ℕ
crontab s = if str_eq s "0 * * * *" then ok 0 else err bad

abbrev pub cron : Cron Board ℕ
cron = record {
  from_crontab = crontab;
  get_job = λ k t. t k;
  add_job = λ job t k. if str_eq job.id k then some job else t k;
  remove_job = λ j t k. if str_eq j k then none else t k;
}

pub cron-Lawful : Scheduler.Lawful cron
cron-Lawful = record { get-add = λ k job t. refl; get-remove = λ k j t. refl }

abbrev pub uuid_text : ℕ → String
uuid_text n = if n == 5 then "5" else "other"

abbrev pub empty : Board
empty k = none

abbrev pub agent : Agent
agent = record { agent_id = 1; account_id = 1; last_seen_at = none; status = "active" }

abbrev pub full_db : Db
full_db = record db { agents = agent ∷ [] }

enqueue_job-claim_example :
    has_id (claim unlocked 1 (enqueue_job 7 5 1 full_db).1.job_runs) 7 ≡ true
unfolding enqueue_job find
enqueue_job-claim_example = enqueue_job-claim 7 5 1 full_db refl

deactivate_pipeline_effect_example :
    let (db', t') = (deactivate_pipeline cron uuid_text 5 1 (full_db, empty)).1 in
    ((k : ℕ)
      → find pipeline_key k db'.pipelines ≡ (
          if 5 == k
          then some (record pipeline { is_active = false })
          else find pipeline_key k full_db.pipelines))
    × (db'.job_runs ≡ full_db.job_runs)
    × (t' (schedule_id cron uuid_text 5) ≡ none)
unfolding get_pipeline find
deactivate_pipeline_effect_example =
    deactivate_pipeline_effect cron uuid_text cron-Lawful 5 1 full_db empty pipeline refl

abbrev pub table : PipelineTableConfig
table = record {
  connector = "razorpay_orders";
  table_name = "razorpay_orders";
  schedule = "hourly";
  params = [];
}

abbrev pub request : BulkCreateRequest
request = record { agent_id = 1; connection_id = 1; tables = table ∷ [] }

abbrev pub new_id : ℕ → ℕ
new_id i = 6

abbrev other_key : Option String
other_key = some "other"
