-- ===== src/Tests/Timelines.antt =====
-- Two runs of a pipeline, one after the other.
use Prim.Native.String.{count}
use turbocat.Prelude.{refl, ap, inl, none, some, [], ◌∷◌, ok, arith}
use turbocat.Python.Dict.{Dict, get?}
use turbocat.Python.Value.{Value, pos, int, text, is_none, truthy}
use turbocat.Python.Time.{minus_days}
use turbocat.Connectors.Base.Schema.{validate}
use turbocat.Connectors.Base.Sync.{sync, flush, finish, next_cursor}
use turbocat.Connectors.Registry.{lookup}
use turbocat.Connectors.Clickhouse.{load, rows_of}
use turbocat.Orchestrator.Table.{find, replace}
use turbocat.Orchestrator.Models.{Pipeline, Db}
use turbocat.Orchestrator.Jobs.Payload.{
  JobPayload, Services, payload_of, start_of, minus_lookback, lookback_of, parse_time,
}
use turbocat.Orchestrator.Jobs.Status.{
  is_terminal, new_cursor, set_cursor, updated_job, update_job_status,
}
use turbocat.Agent.Executor.{run_sync, final_report}
use turbocat.Agent.Client.{body_of}
use turbocat.Cycle.Timeline.{State, reported, poll, report, Reach, here, next}
use turbocat.Cycle.Timeline.Covered.{Covered}
use turbocat.Cycle.Timeline.Kept.{IsNew, no_gaps}
use turbocat.Tests.Fixtures.{execute}
use turbocat.Tests.Marks.{marks, count-marks}
use turbocat.Tests.Control as Control
use turbocat.Tests.Control.{connection, job_of}
use turbocat.Tests.Cycles.{make_config, make_source, connect}

-- The text of a time is as long as the time.
abbrev services : Services
services = record Control.services { fromisoformat = λ s. ok (count s) }

abbrev pipeline : Pipeline
pipeline = record Control.pipeline { params = ("lookback_days", int (pos 0)) ∷ []; state = none }

abbrev tables : Db
tables = record Control.db { pipelines = pipeline ∷ [] }

abbrev start : State
start = record { db = tables; pending = []; windows = [] }

is_new : IsNew 5 0 start
unfolding lookback_of get? find
is_new = record { no_pending = refl; no_windows = refl; unset = λ p there. ground (arith, there) }

abbrev first : JobPayload
first = record Control.payload {
  params = ("lookback_days", int (pos 0)) ∷ [];
  start_time = none;
  end_time = some 4;
  state = [];
}

-- The cursor that the first run sets.
abbrev cursor : Dict Value
cursor = ("last_sync_at", text (marks 4)) ∷ []

abbrev moved : Pipeline
moved = record pipeline { state = some cursor }

-- After the first run.
abbrev synced : State
synced =
    reported marks 0 make_config make_source connect (load execute) services 5
      (record start { pending = first ∷ [] }) first [] 5 []

-- The window of the second run starts where that of the first ends.
abbrev second : JobPayload
second = record first { start_time = some 4; end_time = some 6; state = cursor }

-- After the second.
abbrev synced_twice : State
synced_twice =
    reported marks 0 make_config make_source connect (load execute) services 5
      (record synced { pending = second ∷ [] }) second [] 7 []

both-Reach :
    Reach marks 0 make_config make_source connect (load execute) services 5 start synced_twice
unfolding payload_of find get? reported run_sync final_report lookup sync validate is_none finish
    flush load rows_of update_job_status body_of next_cursor replace is_terminal truthy parse_time
    minus_lookback minus_days start_of lookback_of new_cursor set_cursor updated_job
both-Reach =
    next
      (next
        (next (next here (poll 4 (job_of 1 1 "dispatched") pipeline connection first refl refl))
          (report first [] [] [] 5 (job_of 1 1 "pending") refl refl refl))
        (poll 6 (job_of 1 1 "dispatched") moved connection second refl refl))
      (report second [] [] [] 7 _ refl refl refl)

no_gaps_example : Covered synced_twice.windows 5
unfolding reported run_sync find final_report lookup get? sync validate is_none finish flush load
    rows_of update_job_status body_of next_cursor replace is_terminal
no_gaps_example =
    no_gaps marks 0 make_config make_source connect (load execute) services 5 0
      (λ t. ap ok (count-marks t)) start synced_twice is_new both-Reach 6 5 (inl refl)
      ((λ e first ends. absurd (ground arith), (λ e first ends. ground arith, tt))) (omega arith)
