-- ===== src/Connectors/Base/Sync.antt =====
-- `BaseSourceConnector.sync` of base/connector.py.
pub mod Blocks
pub mod Refines
pub mod Accounting
pub mod Failures
use turbocat.Prelude.{
  ℕ, suc, ◌+◌, String, Bool, true, false, ◌≡◌, Option, none, some, List, [], ◌∷◌, ◌++◌, length, leb,
  is_nil, if◌then◌else◌, Result, ok, err, Exc, handle,
}
use turbocat.Prelude.Exec.{Exec}
use turbocat.Python.Dict.{Dict, get?}
use turbocat.Python.Value.{Value, text}
use turbocat.Connectors.Base.Schema.{TableSchema, SyncResult, validate}

-- What a run of the generator `extract()` comes to: the records that it yields, and the exception
-- that ends it, if one does.
pub record Extraction : Type 0 where
  pub yielded : List (Dict Value)
  pub ending : Option Exc

pub record Counts : Type 0 where
  pub extracted : ℕ
  pub loaded : ℕ
  pub failed : ℕ

abbrev pub zero_counts : Counts
zero_counts = record { extracted = 0; loaded = 0; failed = 0 }

-- `destination.load(table_name, records, schema)` over the destination's state.
abbrev pub Load : Type 0 → Type 0
Load S = String → List (Dict Value) → TableSchema → Exec S (Dict ℕ)

module _ {S : Type 0} (load : Load S) (schema : TableSchema) where
  abbrev loaded_count : List (Dict Value) → Result (Dict ℕ) → Result ℕ
  loaded_count b (err e) = err e
  loaded_count b (ok result) = elim (get? "records_loaded" result) [
    | none ↦ ok (length b)
    | some n ↦ ok n
  ]

  -- `_flush`
  unfoldable pub flush : List (Dict Value) → Exec S ℕ
  flush b s = let (r, s') = load schema.table_name b schema s in (loaded_count b r, s')

  -- What follows the loop: the last batch, if the generator ended by itself and the batch holds
  -- anything.
  unfoldable pub finish : Option Exc → List (Dict Value) → Counts → S → (Option Exc × Counts) × S
  finish (some e) batch c s = ((some e, c), s)
  finish none [] c s = ((none, c), s)
  finish none (r ∷ batch) c s =
      let (loaded, s') = flush (r ∷ batch) s in
      handle loaded (λ e. ((some e, c), s')) (λ n. ((none, record c { loaded = c.loaded + n }), s'))

  -- The `for` loop, with the exception that left it, if one did.
  unfoldable pub sync_loop :
      ℕ
      → List (Dict Value)
      → Option Exc
      → List (Dict Value)
      → Counts
      → S
      → (Option Exc × Counts) × S
  sync_loop size [] ending batch c s = finish ending batch c s
  sync_loop size (r ∷ rest) ending batch c s =
      let c' = record c { extracted = c.extracted + 1 } in
      let batch' = batch ++ r ∷ [] in
      let skip = sync_loop size rest ending batch (record c' { failed = c'.failed + 1 }) s in
      let keep = sync_loop size rest ending batch' c' s in
      let (loaded, s') = flush batch' s in
      let full =
        handle loaded (λ e. ((some e, c'), s'))
          (λ n. sync_loop size rest ending [] (record c' { loaded = c'.loaded + n }) s') in
      if validate schema r then if leb size (length batch') then full else keep else skip

abbrev pub or_empty : Option (Dict Value) → Dict Value
or_empty none = []
or_empty (some d) = d

-- `isoformat` is the method of `datetime`.
module _ (isoformat : ℕ → String) where
  unfoldable pub next_cursor : Option ℕ → Option (Dict Value) → Dict Value
  next_cursor none state = or_empty state
  next_cursor (some end_time) state = ("last_sync_at", text (isoformat end_time)) ∷ []

  -- `duration` is what the clock measured, rounded.
  abbrev pub report : ℕ → Option ℕ → Option (Dict Value) → Option Exc → Counts → SyncResult
  report duration end_time state none c = record {
    status = "success";
    records_extracted = c.extracted;
    records_loaded = c.loaded;
    records_failed = c.failed;
    duration_seconds = duration;
    next_state = next_cursor end_time state;
    error = none;
  }
  report duration end_time state (some e) c = record {
    status = "error";
    records_extracted = c.extracted;
    records_loaded = c.loaded;
    records_failed = c.failed;
    duration_seconds = duration;
    next_state = or_empty state;
    error = some e.text;
  }

  unfoldable pub sync :
      {S : Type 0} (load : Load S) (schema : TableSchema) (extraction : Extraction) (duration : ℕ)
      (end_time : Option ℕ) (state : Option (Dict Value)) (batch_size : ℕ)
      → S
      → SyncResult × S
  unfolding sync_loop
  sync load schema extraction duration end_time state batch_size s =
      let (out, s') =
        sync_loop load schema batch_size extraction.yielded extraction.ending [] zero_counts s in
      (report duration end_time state out.0 out.1, s')
