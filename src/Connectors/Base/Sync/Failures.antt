-- ===== src/Connectors/Base/Sync/Failures.antt =====
-- What ends a run of `sync` that fails.
use turbocat.Prelude.{
  ℕ, ◌+◌, ◌≡◌, ◌≢◌, ◌⊎◌, refl, Option, none, some, List, [], ◌∷◌, ◌++◌, length, leb, arith, Exc,
  err, String, Bool-cases, inl, inr, Result-cases,
}
use turbocat.Python.Dict.{Dict}
use turbocat.Python.Value.{Value}
use turbocat.Connectors.Base.Schema.{TableSchema, validate}
use turbocat.Connectors.Base.Sync.{
  Load, Counts, Extraction, zero_counts, flush, finish, sync_loop, report, or_empty, sync,
}

module _ {S : Type 0} (load : Load S) (schema : TableSchema) where
  -- The exception is that of the generator, or of a load.
  abbrev pub IsCause : Option Exc → Exc → Type 0
  IsCause ending e =
      (ending ≡ some e)
      ⊎ ((b : List (Dict Value)) × (s : S) × ((load schema.table_name b schema s).0 ≡ err e))

  flush-err :
      (b : List (Dict Value)) (s : S) (e : Exc)
      → (flush load schema b s).0 ≡ err e
      → (load schema.table_name b schema s).0 ≡ err e
  unfolding flush
  flush-err b s e h = ground arith

  finish-IsCause :
      (ending : Option Exc) (batch : List (Dict Value)) (c : Counts) (s : S) (e : Exc)
      → (finish load schema ending batch c s).0.0 ≡ some e
      → IsCause ending e
  unfolding finish
  finish-IsCause (some e') batch c s e h = inl h
  finish-IsCause none [] c s e h = inl h
  finish-IsCause none (r ∷ batch) c s e h =
      elim (Result-cases (flush load schema (r ∷ batch) s).0) [
        | inl (n, p) ↦ absurd (ground arith)
        | inr (e', p) ↦ inr (r ∷ batch, s, flush-err (r ∷ batch) s e (ground arith))
      ]

  loop-IsCause :
      (size : ℕ) (xs : List (Dict Value)) (ending : Option Exc) (batch : List (Dict Value))
      (c : Counts) (s : S) (e : Exc)
      → (sync_loop load schema size xs ending batch c s).0.0 ≡ some e
      → IsCause ending e
  unfolding sync_loop
  loop-IsCause size [] ending batch c s e h = finish-IsCause ending batch c s e h
  loop-IsCause size (r ∷ xs) ending batch c s e h =
      let c' = record c { extracted = c.extracted + 1 } in
      elim (Bool-cases (validate schema r)) [
        | inr bad ↦
            loop-IsCause size xs ending batch (record c' { failed = c'.failed + 1 }) s e
              (rw bad at h)
        | inl v ↦ elim (Bool-cases (leb size (length (batch ++ r ∷ [])))) [
          | inr room ↦ loop-IsCause size xs ending (batch ++ r ∷ []) c' s e (rw (v, room) at h)
          | inl full ↦ elim (Result-cases (flush load schema (batch ++ r ∷ []) s).0) [
            | inl (n, p) ↦
                loop-IsCause size xs ending [] (record c' { loaded = c'.loaded + n })
                  (flush load schema (batch ++ r ∷ []) s).1 e (rw (v, full, p) at h)
            | inr (e', p) ↦
                let raised : some e' ≡ some e = rw (v, full, p) at h in
                inr (batch ++ r ∷ [], s, flush-err (batch ++ r ∷ []) s e (ground (arith, p)))
          ]
        ]
      ]

module _ (isoformat : ℕ → String) {S : Type 0} (load : Load S) (schema : TableSchema)
    (x : Extraction) (duration : ℕ) (end_time : Option ℕ) (state : Option (Dict Value)) where
  kept :
      (o : Option Exc) (c : Counts)
      → (report isoformat duration end_time state o c).status ≢ "success"
      → let result = report isoformat duration end_time state o c in
        (result.status ≡ "error")
        × (result.next_state ≡ or_empty state)
        × ((e : Exc) × (o ≡ some e) × (result.error ≡ some e.text))
  kept none c h = absurd (h refl)
  kept (some e) c h = (refl, refl, (e, refl, refl))

  -- A run of `sync` without status "success" has status "error", the cursor that it was given, and
  -- as its error the text of the exception that ended the generator, or of one that the load of some
  -- batch raises.
  pub sync_failure :
      (size : ℕ) (s : S)
      → (sync isoformat load schema x duration end_time state size s).0.status ≢ "success"
      → let result = (sync isoformat load schema x duration end_time state size s).0 in
        (result.status ≡ "error")
        × (result.next_state ≡ or_empty state)
        × ((e : Exc) × (result.error ≡ some e.text) × IsCause load schema x.ending e)
  unfolding sync
  sync_failure size s h =
      let (status, state_kept, (e, raised, message)) = kept _ _ h in
      (
        status,
        state_kept,
        (e, message, loop-IsCause load schema size x.yielded x.ending [] zero_counts s e raised),
      )
