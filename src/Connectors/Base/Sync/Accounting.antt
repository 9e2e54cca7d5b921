-- ===== src/Connectors/Base/Sync/Accounting.antt =====
-- What the counters and the cursor of a SyncResult say of the run.
use turbocat.Prelude.{
  ℕ, ◌+◌, ◌≤◌, ◌≡◌, not, Option, none, some, List, [], ◌∷◌, ◌++◌, length, length-append, filter,
  leb, arith, Exc, ok, String, Bool-cases, inl, inr, Result-cases, eq_iff,
}
use turbocat.Python.Dict.{Dict, get?}
use turbocat.Python.Value.{Value}
use turbocat.Connectors.Base.Schema.{TableSchema, SyncResult, validate}
use turbocat.Connectors.Base.Sync.{
  Load, Counts, Extraction, zero_counts, flush, finish, sync_loop, next_cursor, report, sync,
}

-- The contract of `load`: what it returns counts every record of the batch as loaded.
abbrev pub LoadsAll : {S : Type 0} → Load S → TableSchema → Type 0
LoadsAll {S} load schema =
    (b : List (Dict Value)) (s : S) (result : Dict ℕ)
    → (load schema.table_name b schema s).0 ≡ ok result
    → get? "records_loaded" result ≡ some (length b)

module _ {S : Type 0} (load : Load S) (schema : TableSchema) where
  abbrev pub invalid : List (Dict Value) → List (Dict Value)
  invalid = filter (λ r. not (validate schema r))

  -- From the counts `c` with `held` records in the batch, over the records `xs`, to the counts `d`.
  record Accounts (held : ℕ) (xs : List (Dict Value)) (ending : Option Exc) (c : Counts)
      (o : Option Exc) (d : Counts) : Type 0 where
    bounded : d.loaded + d.failed + c.extracted ≤ c.loaded + c.failed + held + d.extracted
    read : d.extracted ≤ c.extracted + length xs
    ended : o ≡ none → ending ≡ none
    all_read : o ≡ none → d.extracted ≡ c.extracted + length xs
    all_loaded :
        o ≡ none → d.loaded + d.failed + c.extracted ≡ c.loaded + c.failed + held + d.extracted
    all_failed : o ≡ none → d.failed ≡ c.failed + length (invalid xs)

  module _ (honest : LoadsAll load schema) where
    flush-length :
        (b : List (Dict Value)) (s : S) (n : ℕ) → (flush load schema b s).0 ≡ ok n → n ≡ length b
    unfolding flush
    flush-length b s n h = elim (Result-cases (load schema.table_name b schema s).0) [
      | inl (result, p) ↦ ground (arith, honest b s result p)
      | inr (e, p) ↦ ground arith
    ]

    finish-Accounts :
        (ending : Option Exc) (batch : List (Dict Value)) (c : Counts) (s : S)
        → Accounts
            (length batch)
            []
            ending
            c
            (finish load schema ending batch c s).0.0
            (finish load schema ending batch c s).0.1
    unfolding finish
    finish-Accounts (some e) batch c s = ground arith
    finish-Accounts none [] c s = ground arith
    finish-Accounts none (r ∷ batch) c s = elim (Result-cases (flush load schema (r ∷ batch) s).0) [
      | inl (n, p) ↦ rw p (ground (arith, flush-length (r ∷ batch) s n p))
      | inr (e, p) ↦ rw p (ground arith)
    ]

    loop-Accounts :
        (size : ℕ) (xs : List (Dict Value)) (ending : Option Exc) (batch : List (Dict Value))
        (c : Counts) (s : S)
        → Accounts
            (length batch)
            xs
            ending
            c
            (sync_loop load schema size xs ending batch c s).0.0
            (sync_loop load schema size xs ending batch c s).0.1
    unfolding sync_loop
    loop-Accounts size [] ending batch c s = finish-Accounts ending batch c s
    loop-Accounts size (r ∷ xs) ending batch c s =
        let c' = record c { extracted = c.extracted + 1 } in
        elim (Bool-cases (validate schema r)) [
          | inr bad ↦
              let ih =
                loop-Accounts size xs ending batch (record c' { failed = c'.failed + 1 }) s in
              rw bad (ground arith)
          | inl v ↦ elim (Bool-cases (leb size (length (batch ++ r ∷ [])))) [
            | inr room ↦
                let ih = loop-Accounts size xs ending (batch ++ r ∷ []) c' s in
                rw (v, room) (ground (arith, length-append batch (r ∷ [])))
            | inl full ↦ elim (Result-cases (flush load schema (batch ++ r ∷ []) s).0) [
              | inl (n, p) ↦
                  let ih =
                    loop-Accounts size xs ending [] (record c' { loaded = c'.loaded + n })
                      (flush load schema (batch ++ r ∷ []) s).1 in
                  rw (v, full, p)
                    (ground
                      (arith, flush-length (batch ++ r ∷ []) s n p, length-append batch (r ∷ [])))
              | inr (e, p) ↦ rw (v, full, p) (ground (arith, length-append batch (r ∷ [])))
            ]
          ]
        ]

module _ (isoformat : ℕ → String) {S : Type 0} (load : Load S) (schema : TableSchema)
    (x : Extraction) (duration : ℕ) (end_time : Option ℕ) (state : Option (Dict Value)) where
  -- A run that lost nothing.
  pub record Complete (result : SyncResult) : Type 0 where
    pub exhausted : x.ending ≡ none
    pub all_extracted : result.records_extracted ≡ length x.yielded
    pub invalid_failed : result.records_failed ≡ length (invalid load schema x.yielded)
    pub others_loaded : result.records_loaded + result.records_failed ≡ length x.yielded
    pub moved : result.next_state ≡ next_cursor isoformat end_time state

  complete :
      (o : Option Exc) (c : Counts)
      → Accounts load schema 0 x.yielded x.ending zero_counts o c
      → (report isoformat duration end_time state o c).status ≡ "success"
      → Complete (report isoformat duration end_time state o c)
  complete none c a h = ground arith
  complete (some e) c a h = absurd (ground (arith, eq_iff "error" "success"))

  -- Where `load` counts every record of its batch as loaded, a run of `sync` that has status
  -- "success" lost nothing: the generator ended by itself, every record that it yields was counted
  -- as extracted, those that fail `validate` were counted as failed, all others were counted as
  -- loaded, and the cursor is the end of the window, or the old cursor if the window has no end.
  pub sync_success :
      (size : ℕ) (s : S)
      → LoadsAll load schema
      → (sync isoformat load schema x duration end_time state size s).0.status ≡ "success"
      → Complete (sync isoformat load schema x duration end_time state size s).0
  unfolding sync
  sync_success size s honest h =
      complete _ _ (loop-Accounts load schema honest size x.yielded x.ending [] zero_counts s) h

  bounds :
      (o : Option Exc) (c : Counts)
      → Accounts load schema 0 x.yielded x.ending zero_counts o c
      → let result = report isoformat duration end_time state o c in
        (result.records_loaded + result.records_failed ≤ result.records_extracted)
        × (result.records_extracted ≤ length x.yielded)
  bounds none c a = ground arith
  bounds (some e) c a = ground arith

  -- Where `load` counts every record of its batch as loaded: after every run of `sync`, whether it
  -- succeeds or fails, the records counted as loaded and as failed are together no more than those
  -- counted as extracted, and these no more than the records that the generator yields.
  pub sync_counts :
      (size : ℕ) (s : S)
      → LoadsAll load schema
      → let result = (sync isoformat load schema x duration end_time state size s).0 in
        (result.records_loaded + result.records_failed ≤ result.records_extracted)
        × (result.records_extracted ≤ length x.yielded)
  unfolding sync
  sync_counts size s honest =
      bounds _ _ (loop-Accounts load schema honest size x.yielded x.ending [] zero_counts s)
