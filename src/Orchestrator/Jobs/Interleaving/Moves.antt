-- ===== src/Orchestrator/Jobs/Interleaving/Moves.antt =====
-- Commits, failures, reports and ticks keep the invariant.
use turbocat.Prelude.{
  ℕ, ◌+◌, String, true, false, ◌≡◌, ◌≢◌, ◌⊎◌, inl, inr, refl, ap, List, [], ◌∷◌, ◌++◌, map, All,
  All-append, times, times-append, arith, ◌==◌, ==_iff, str_eq, eq_iff, if◌then◌else◌, Bool-cases,
  Option-cases, Result-cases,
}
use turbocat.Orchestrator.Table.{find, replace}
use turbocat.Orchestrator.Models.{Agent, Pipeline, JobRun, Db}
use turbocat.Orchestrator.Models.JobStatus
use turbocat.Orchestrator.Jobs.Dispatch.{has_id, ids_of, mark}
use turbocat.Orchestrator.Jobs.Dispatch.Claims.{job_id-mark}
use turbocat.Orchestrator.Jobs.Status.{
  StatusUpdate, job_key, updated_job, set_cursor, new_cursor, fits_columns, update_job_status,
}
use turbocat.Orchestrator.Scheduler.{pending_job, enqueue_job}
use turbocat.Orchestrator.Jobs.Interleaving.Invariant.{IsSettled, Inv, held-split, has_id-times}

ids_of-mark : (ids : List ℕ) (rows : List JobRun) → ids_of (map (mark ids) rows) ≡ ids_of rows
ids_of-mark ids [] = refl
ids_of-mark ids (j ∷ rows) = rw (job_id-mark ids j, ids_of-mark ids rows) refl

mark-IsSettled :
    (ids claims : List ℕ) (j : JobRun) → IsSettled claims j → IsSettled (ids ++ claims) (mark ids j)
unfolding mark
mark-IsSettled ids claims j s = elim (Bool-cases (has_id ids j.job_id)) [
  | inl marked ↦ rw marked (inr refl)
  | inr other ↦
      rw other
        (ground (arith, times-append j.job_id ids claims, has_id-times j.job_id ids other, s))
]

All-mark :
    (ids claims : List ℕ) (rows : List JobRun)
    → All (IsSettled claims) rows
    → All (IsSettled (ids ++ claims)) (map (mark ids) rows)
All-mark ids claims [] h = tt
All-mark ids claims (j ∷ rows) (h, hs) =
    (mark-IsSettled ids claims j h, All-mark ids claims rows hs)

pub commit-Inv :
    (rows : List JobRun) (before after : List (List ℕ)) (ids claims : List ℕ)
    → Inv rows (before ++ ids ∷ after) claims
    → Inv (map (mark ids) rows) (before ++ after) (ids ++ claims)
commit-Inv rows before after ids claims v = record {
  keys = λ k. rw (ids_of-mark ids rows) (v.keys k);
  single = λ k. omega (arith, v.single k, held-split k before after ids, times-append k ids claims);
  known = λ k.
      rw (ids_of-mark ids rows)
        (omega (arith, v.known k, held-split k before after ids, times-append k ids claims));
  settled = All-mark ids claims rows v.settled;
}

pub abort-Inv :
    (rows : List JobRun) (before after : List (List ℕ)) (ids claims : List ℕ)
    → Inv rows (before ++ ids ∷ after) claims
    → Inv rows (before ++ after) claims
abort-Inv rows before after ids claims v = record {
  keys = v.keys;
  single = λ k. omega (arith, v.single k, held-split k before after ids);
  known = λ k. omega (arith, v.known k, held-split k before after ids);
  settled = v.settled;
}

ids_of-replace :
    (new : JobRun) (rows : List JobRun) → ids_of (replace job_key new rows) ≡ ids_of rows
unfolding replace
ids_of-replace new [] = refl
ids_of-replace new (j ∷ rows) = ground (arith, ids_of-replace new rows, ==_iff j.job_id new.job_id)

All-replace :
    (claims : List ℕ) (new : JobRun) (rows : List JobRun)
    → IsSettled claims new
    → All (IsSettled claims) rows
    → All (IsSettled claims) (replace job_key new rows)
unfolding replace
All-replace claims new [] h hs = tt
All-replace claims new (j ∷ rows) h (k, hs) = elim (Bool-cases (j.job_id == new.job_id)) [
  | inl same ↦ rw same (h, hs)
  | inr other ↦ rw other (k, All-replace claims new rows h hs)
]

replace-Inv :
    (rows : List JobRun) (txs : List (List ℕ)) (claims : List ℕ) (new : JobRun)
    → str_eq new.status JobStatus.pending ≡ false
    → Inv rows txs claims
    → Inv (replace job_key new rows) txs claims
replace-Inv rows txs claims new done v = record {
  keys = λ k. rw (ids_of-replace new rows) (v.keys k);
  single = v.single;
  known = λ k. rw (ids_of-replace new rows) (v.known k);
  settled = All-replace claims new rows (inr done) v.settled;
}

updated_status :
    (now : ℕ) (body : StatusUpdate) (job : JobRun) → (updated_job now body job).status ≡ body.status
unfolding updated_job
updated_status now body job = ground arith

not_pending :
    (status : String) → status ≢ JobStatus.pending → str_eq status JobStatus.pending ≡ false
not_pending status h = ground (arith, eq_iff status JobStatus.pending)

-- A report leaves the rows, or replaces one.
report_rows :
    (now job_id : ℕ) (body : StatusUpdate) (db : Db)
    → let rows = (update_job_status now job_id body db).1.job_runs in
      (rows ≡ db.job_runs)
      ⊎ ((job : JobRun) × (rows ≡ replace job_key (updated_job now body job) db.job_runs))
unfolding update_job_status
report_rows now job_id body db = elim (Option-cases (find job_key job_id db.job_runs)) [
  | inl missing ↦ inl (ground (arith, missing))
  | inr (job, found) ↦ elim (Result-cases (set_cursor (new_cursor body) job db.pipelines)) [
    | inr (e, p) ↦ inl (ground (arith, found, p))
    | inl (pipelines, p) ↦ elim (Bool-cases (fits_columns body)) [
      | inl fits ↦ inr (job, ground (arith, found, p, fits))
      | inr long ↦ inl (ground (arith, found, p, long))
    ]
  ]
]

pub report-Inv :
    (now job_id : ℕ) (body : StatusUpdate) (db : Db) (txs : List (List ℕ)) (claims : List ℕ)
    → body.status ≢ JobStatus.pending
    → Inv db.job_runs txs claims
    → Inv (update_job_status now job_id body db).1.job_runs txs claims
report-Inv now job_id body db txs claims done v = elim (report_rows now job_id body db) [
  | inl same ↦ rw same v
  | inr (job, replaced) ↦ rw replaced (
      replace-Inv db.job_runs txs claims (updated_job now body job)
        (rw (updated_status now body job) (not_pending body.status done)) v)
]

ids_of-append :
    (rows : List JobRun) (j : JobRun) → ids_of (rows ++ j ∷ []) ≡ ids_of rows ++ j.job_id ∷ []
ids_of-append [] j = refl
ids_of-append (r ∷ rows) j = ap (λ l. r.job_id ∷ l) (ids_of-append rows j)

times-ids_of-append :
    (k : ℕ) (rows : List JobRun) (j : JobRun)
    → times k (ids_of (rows ++ j ∷ [])) ≡ times k (ids_of rows) + (if j.job_id == k then 1 else 0)
unfolding times
times-ids_of-append k rows j =
    rw (ids_of-append rows j) (omega (arith, times-append k (ids_of rows) (j.job_id ∷ [])))

fresh_times :
    (k : ℕ) (rows : List JobRun) (j : JobRun)
    → has_id (ids_of rows) j.job_id ≡ false
    → (j.job_id == k) ≡ true
    → times k (ids_of rows) ≡ 0
fresh_times k rows j fresh same =
    rw (← (==_iff j.job_id k).0 same) (has_id-times j.job_id (ids_of rows) fresh)

pub append-Inv :
    (rows : List JobRun) (txs : List (List ℕ)) (claims : List ℕ) (j : JobRun)
    → has_id (ids_of rows) j.job_id ≡ false
    → Inv rows txs claims
    → Inv (rows ++ j ∷ []) txs claims
append-Inv rows txs claims j fresh v = record {
  keys = λ k. elim (Bool-cases (j.job_id == k)) [
    | inl same ↦
        rw (times-ids_of-append k rows j, same) (omega (arith, fresh_times k rows j fresh same))
    | inr other ↦ rw (times-ids_of-append k rows j, other) (omega (arith, v.keys k))
  ];
  single = v.single;
  known = λ k. rw (times-ids_of-append k rows j) (omega (arith, v.known k));
  settled =
      All-append (IsSettled claims) rows (j ∷ []) v.settled
        (inl (omega (arith, v.known j.job_id, has_id-times j.job_id (ids_of rows) fresh)), tt);
}

-- A tick leaves the rows, or adds a pending one.
pub tick_rows :
    (job_id pipeline_id agent_id : ℕ) (db : Db)
    → let rows = (enqueue_job job_id pipeline_id agent_id db).1.job_runs in
      (rows ≡ db.job_runs) ⊎ (rows ≡ db.job_runs ++ pending_job job_id pipeline_id agent_id ∷ [])
unfolding enqueue_job
tick_rows job_id pipeline_id agent_id db =
    elim (Option-cases (find (λ (p : Pipeline). p.pipeline_id) pipeline_id db.pipelines)) [
      | inl missing ↦ inl (ground (arith, missing))
      | inr (p, found) ↦ elim (Option-cases (find (λ (a : Agent). a.agent_id) agent_id db.agents)) [
        | inl missing ↦ inl (ground (arith, found, missing))
        | inr (a, there) ↦ inr (ground (arith, found, there))
      ]
    ]
