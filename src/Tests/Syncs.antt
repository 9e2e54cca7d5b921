-- ===== src/Tests/Syncs.antt =====
-- `sync` into ClickHouse.
use mathlib.Core.Option
use turbocat.Prelude.{◌+◌, ◌≤◌, ◌≡◌, refl, none, some, [], ◌∷◌, Exc, arith, eq_iff}
use turbocat.Python.Dict.{Dict}
use turbocat.Python.Value.{Value, text}
use turbocat.Connectors.Base.Schema.{SyncResult, validate}
use turbocat.Connectors.Base.Sync.{Extraction, sync, flush, finish}
use turbocat.Connectors.Base.Sync.Blocks.{plan}
use turbocat.Connectors.Base.Sync.Refines.{load_all, closing, valid, sync-eq-load_all}
use turbocat.Connectors.Base.Sync.Accounting.{Complete, sync_success, sync_counts}
use turbocat.Connectors.Base.Sync.Failures.{IsCause, sync_failure}
use turbocat.Connectors.Clickhouse.{load, rows_of}
use turbocat.Connectors.Clickhouse.Loading.{load-LoadsAll}
use turbocat.Tests.Fixtures.{now, iso, execute, tiny, four, broken, Rows}

abbrev run : Extraction → SyncResult × Rows
run x = sync iso (load execute) tiny x 0 (some now) none 2 []

run_test : (run four).1 ≡ ((text "a" ∷ []) ∷ (text "b" ∷ []) ∷ []) ∷ ((text "c" ∷ []) ∷ []) ∷ []
unfolding sync load flush finish validate turbocat.Python.Dict.get? turbocat.Python.Value.is_none
    rows_of
run_test = refl

sync-eq-load_all_example :
    let (result, s') = run four in
    let ((raised, loaded), after) =
      closing (load execute) tiny none (
        load_all (load execute) tiny (plan 2 none (valid (load execute) tiny four.yielded)) 0 []) in
    (s' ≡ after)
    × (result.records_loaded ≡ loaded)
    × (result.error ≡ Option.map (λ (e : Exc). e.text) raised)
sync-eq-load_all_example =
    sync-eq-load_all iso (load execute) tiny four 0 (some now) none 2 [] (omega arith)

sync_success_example : Complete iso (load execute) tiny four 0 (some now) none (run four).0
unfolding sync load flush finish validate turbocat.Python.Dict.get? turbocat.Python.Value.is_none
    rows_of
sync_success_example =
    sync_success iso (load execute) tiny four 0 (some now) none 2 [] (load-LoadsAll execute tiny)
      refl

sync_failure_example :
    let result = (run broken).0 in
    (result.status ≡ "error")
    × (result.next_state ≡ [])
    × ((e : Exc) × (result.error ≡ some e.text) × IsCause (load execute) tiny broken.ending e)
unfolding sync load flush finish
sync_failure_example =
    sync_failure iso (load execute) tiny broken 0 (some now) none 2 []
      (λ h. ground (arith, eq_iff "error" "success"))

sync_counts_example :
    let result = (run broken).0 in
    (result.records_loaded + result.records_failed ≤ result.records_extracted)
    × (result.records_extracted ≤ 1)
unfolding sync load flush finish
sync_counts_example =
    sync_counts iso (load execute) tiny broken 0 (some now) none 2 [] (load-LoadsAll execute tiny)
