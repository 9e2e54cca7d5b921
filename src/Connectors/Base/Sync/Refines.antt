-- ===== src/Connectors/Base/Sync/Refines.antt =====
-- `sync` against its reference: cut the valid records into blocks and load one after the other.
use turbocat.Prelude.{
  ℕ, ◌+◌, ◌<◌, ◌≡◌, refl, ap, ◌∙◌, Option, none, some, List, [], ◌∷◌, ◌++◌, length, length-append,
  filter, leb, arith, Exc, append-nil, append_assoc, String, Bool-cases, inl, inr, handle,
  Result-cases,
}
use mathlib.Core.Option
use turbocat.Python.Dict.{Dict}
use turbocat.Python.Value.{Value}
use turbocat.Connectors.Base.Schema.{TableSchema, validate}
use turbocat.Connectors.Base.Sync.{
  Load, Counts, Extraction, zero_counts, flush, finish, sync_loop, report, sync,
}
use turbocat.Connectors.Base.Sync.Blocks.{plan, plan-append, full_short, left_over_short}

module _ {S : Type 0} (load : Load S) (schema : TableSchema) where
  -- Loads the blocks in order up to the first that raises, and adds up what was loaded.
  unfoldable pub load_all : List (List (Dict Value)) → ℕ → S → (Option Exc × ℕ) × S
  load_all [] k s = ((none, k), s)
  load_all (b ∷ bs) k s =
      let (loaded, s') = flush load schema b s in
      handle loaded (λ e. ((some e, k), s')) (λ n. load_all bs (k + n) s')

  -- The exception that ends the generator shows if no block raised.
  abbrev pub closing : Option Exc → (Option Exc × ℕ) × S → (Option Exc × ℕ) × S
  closing ending ((none, k), s) = ((ending, k), s)
  closing ending ((some e, k), s) = ((some e, k), s)

  abbrev seen : (Option Exc × Counts) × S → (Option Exc × ℕ) × S
  seen ((o, c), s) = ((o, c.loaded), s)

  abbrev pub valid : List (Dict Value) → List (Dict Value)
  valid = filter (validate schema)

  finish-plan :
      (n : ℕ) (ending : Option Exc) (batch : List (Dict Value)) (c : Counts) (s : S)
      → length batch < n
      → seen (finish load schema ending batch c s)
        ≡ closing ending (load_all (plan n ending batch) c.loaded s)
  unfolding finish load_all
  finish-plan n (some e) batch c s h = rw (full_short n batch h)
  finish-plan n none [] c s h = rw (full_short n [] h, left_over_short n [] h)
  finish-plan n none (r ∷ batch) c s h =
      rw (full_short n (r ∷ batch) h, left_over_short n (r ∷ batch) h) (ground arith)

  full-plan :
      (n : ℕ) (b xs : List (Dict Value)) (ending : Option Exc) (c : Counts) (s : S)
      → 0 < n
      → length b ≡ n
      → ((c' : Counts) (s' : S)
          → seen (sync_loop load schema n xs ending [] c' s')
            ≡ closing ending (load_all (plan n ending (valid xs)) c'.loaded s'))
      → seen (
          handle
            (flush load schema b s).0
            (λ e. ((some e, c), (flush load schema b s).1))
            (λ k.
              sync_loop load schema n xs ending []
                (record c { loaded = c.loaded + k })
                (flush load schema b s).1))
        ≡ closing ending (load_all (plan n ending (b ++ valid xs)) c.loaded s)
  unfolding load_all
  full-plan n b xs ending c s pos size ih =
      rw (plan-append n ending b (valid xs) pos size)
        (elim (Result-cases (flush load schema b s).0) [
          | inl (k, done) ↦ rw done (ih _ _)
          | inr (e, raised) ↦ rw raised
        ])

  loop-plan :
      (n : ℕ) (xs : List (Dict Value)) (ending : Option Exc) (batch : List (Dict Value))
      (c : Counts) (s : S)
      → length batch < n
      → seen (sync_loop load schema n xs ending batch c s)
        ≡ closing ending (load_all (plan n ending (batch ++ valid xs)) c.loaded s)
  unfolding sync_loop
  loop-plan n [] ending batch c s h = rw append-nil (finish-plan n ending batch c s h)
  loop-plan n (r ∷ xs) ending batch c s h = elim (Bool-cases (validate schema r)) [
    | inr invalid ↦ rw invalid (loop-plan n xs ending batch _ s h)
    | inl v ↦ elim (Bool-cases (leb n (length (batch ++ r ∷ [])))) [
      | inr room ↦
          rw (v, room, ← append_assoc batch (r ∷ []) (valid xs))
            (loop-plan n xs ending (batch ++ r ∷ []) _ s (ground arith))
      | inl at_size ↦
          rw (v, at_size, ← append_assoc batch (r ∷ []) (valid xs))
            (full-plan n (batch ++ r ∷ []) xs ending (record c { extracted = c.extracted + 1 }) s
              (omega arith) (ground (arith, length-append batch (r ∷ [])))
              (λ c' s'. loop-plan n xs ending [] c' s' (omega arith)))
    ]
  ]

module _ (isoformat : ℕ → String) (duration : ℕ) (end_time : Option ℕ)
    (state : Option (Dict Value)) where
  report_loaded :
      (o : Option Exc) (c : Counts)
      → (report isoformat duration end_time state o c).records_loaded ≡ c.loaded
  report_loaded none c = refl
  report_loaded (some e) c = refl

  report_error :
      (o : Option Exc) (c : Counts)
      → (report isoformat duration end_time state o c).error ≡ Option.map (λ e. e.text) o
  report_error none c = refl
  report_error (some e) c = refl

-- For a batch size that is not 0, `sync` leaves the destination, counts the records loaded and
-- ends with the exception as this reference does: the records that pass `validate` are cut into
-- consecutive blocks of the batch size, in their order, and the blocks are loaded one after the
-- other up to the first that raises; the shorter last block is loaded only if `extract` ended
-- without an exception.
pub sync-eq-load_all :
    (isoformat : ℕ → String) {S : Type 0} (load : Load S) (schema : TableSchema) (x : Extraction)
    (duration : ℕ) (end_time : Option ℕ) (state : Option (Dict Value)) (size : ℕ) (s : S)
    → 0 < size
    → let (result, s') = sync isoformat load schema x duration end_time state size s in
      let ((raised, loaded), after) =
        closing load schema x.ending
          (load_all load schema (plan size x.ending (valid load schema x.yielded)) 0 s) in
      (s' ≡ after)
      × (result.records_loaded ≡ loaded)
      × (result.error ≡ Option.map (λ (e : Exc). e.text) raised)
unfolding sync
sync-eq-load_all isoformat load schema x duration end_time state size s pos =
    let p = loop-plan load schema size x.yielded x.ending [] zero_counts s pos in
    (
      ap (λ t. t.1) p,
      report_loaded isoformat duration end_time state _ _ ∙ ap (λ t. t.0.1) p,
      report_error isoformat duration end_time state _ _
          ∙ ap (λ t. Option.map (λ (e : Exc). e.text) t.0.0) p,
    )
