-- ===== src/Connectors/Kapture/Rows.antt =====
-- The rows that the tickets become.
use turbocat.Prelude.{
  ℕ, String, true, ◌≡◌, refl, ap, Option, none, some, List, [], ◌∷◌, map, All, Result, ok, is_ok,
  arith, str_eq, if◌then◌else◌, >>=-eq-ok, ok_inj, Bool-cases, inl, inr,
}
use turbocat.Python.Dict.{Dict, get?, keys}
use turbocat.Python.Value.{ℤ, Value, Fields, time, obj, to_dict, is_none}
use turbocat.Connectors.Base.Schema.{column_names, is_present, is_present-some, validate}
use turbocat.Connectors.Source.{get_or_none}
use turbocat.Connectors.Clickhouse.{rows_of}
use turbocat.Connectors.Clickhouse.Fitting.{Fits, rows_of-Fits}
use turbocat.Prelude.{zero, suc, ◌/◌, leb, Result-cases}
use turbocat.Prelude.Exec.{Exec}
use turbocat.Python.Time.{day, next_day}
use turbocat.Connectors.Base.Sync.{Extraction}
use turbocat.Connectors.Source.{transform_all, transform_all_ind}
use turbocat.Connectors.Razorpay.Pages.{failed, is_raised}
use turbocat.Connectors.Razorpay.Yields.{Yields, Yields-then_more}
use turbocat.Connectors.Kapture.Days.{days, tickets_of, extract_tickets}
use turbocat.Connectors.Kapture.Tickets.{
  Cells, collect, dict_of, part, cells, transform_ticket, tickets_schema,
}

cell_names : Cells → List String
cell_names = map (λ cell. cell.0)

keys-collect : (cs : Cells) (d : Dict Value) → collect cs ≡ ok d → keys d ≡ cell_names cs
unfolding collect keys cell_names
keys-collect [] d h = rw (← ok_inj h) refl
keys-collect ((k, cell) ∷ cs) d h =
    let (v, _, rest) = >>=-eq-ok cell _ h in
    let (ds, done, made) = >>=-eq-ok (collect cs) _ rest in
    rw (← ok_inj made) (ap (λ l. k ∷ l) (keys-collect cs ds done))

-- The first cell with the key.
cell_of : String → Cells → Option (Result Value)
cell_of k [] = none
cell_of k ((j, cell) ∷ cs) = if str_eq j k then some cell else cell_of k cs

get-collect :
    (k : String) (v : Value) (cs : Cells) (d : Dict Value)
    → collect cs ≡ ok d
    → cell_of k cs ≡ some (ok v)
    → get? k d ≡ some v
unfolding collect cell_of get?
get-collect k v [] d h found = cc
get-collect k v ((j, cell) ∷ cs) d h found =
    let (w, computed, rest) = >>=-eq-ok cell _ h in
    let (ds, done, made) = >>=-eq-ok (collect cs) _ rest in
    elim (Bool-cases (str_eq j k)) [
      | inl same ↦ rw (← ok_inj made) (ground (arith, computed))
      | inr other ↦
          rw (← ok_inj made) (ground (arith, get-collect k v cs ds done (rw other at found)))
    ]

copied :
    (r d : Dict Value)
    → get? "ticket_id" d ≡ some (get_or_none "ticketId" r)
    → is_present d "ticket_id" ≡ is_present r "ticketId"
unfolding is_present is_none get_or_none
copied r d h = ground (arith, h)

module _ (strip : String → String) (strptime : String → Option ℕ) (int_of_float : ℕ → Result ℤ)
    (now : ℕ) where
  abbrev transform : Value → Result (Dict Value)
  transform = transform_ticket strip strptime int_of_float now

  -- A ticket that is transformed was a dict, and its row is collected from its cells.
  pub from_cells :
      (value : Value) (d : Dict Value)
      → transform value ≡ ok d
      → (r ticket customer contact folders : Dict Value) × (dict_of value ≡ ok r)
        × (collect (cells strip strptime int_of_float now r ticket customer contact folders) ≡ ok d)
  unfolding transform_ticket
  from_cells value d h =
      let (r, is_dict, h₁) = >>=-eq-ok (dict_of value) _ h in
      let (ticket, _, h₂) = >>=-eq-ok (part "ticket" r) _ h₁ in
      let (customer, _, h₃) = >>=-eq-ok (part "customer" r) _ h₂ in
      let (contact, _, h₄) = >>=-eq-ok (part "contact" r) _ h₃ in
      let (folders, _, h₅) = >>=-eq-ok (part "dispositionFolderLevel" r) _ h₄ in
      (r, ticket, customer, contact, folders, is_dict, h₅)

  pub transform_ticket-Fits :
      (value : Value) (d : Dict Value) → transform value ≡ ok d → Fits tickets_schema d
  unfolding cell_names
  transform_ticket-Fits value d h =
      let (r, ticket, customer, contact, folders, _, made) = from_cells value d h in
      keys-collect (cells strip strptime int_of_float now r ticket customer contact folders) d made

  -- What holds of every record that `transform` makes holds of every ticket that is yielded.
  module _ {W : Type 0} (get_day : ℕ → Exec W Value) (P : Dict Value → Type 0)
      (makes : (v : Value) (r : Dict Value) → transform v ≡ ok r → P r) where
    days-Yields :
        (fuel last current : ℕ) (w : W) → Yields P (days get_day transform fuel last current w).0
    unfolding days
    days-Yields zero last current w = tt
    days-Yields (suc fuel) last current w =
        let (response, w') = get_day current w in
        elim (Bool-cases (leb (current / day) (last / day))) [
          | inr past ↦ rw (past, days) tt
          | inl inside ↦ elim (Result-cases response) [
            | inr (e, p) ↦ rw (inside, days, p) tt
            | inl (v, p) ↦
                let here = transform_all transform (tickets_of v) in
                let fit = transform_all_ind transform P makes (tickets_of v) in
                elim (Bool-cases (is_raised here.ending)) [
                  | inl raised ↦ rw (inside, days, p, raised) fit
                  | inr whole ↦ elim (Result-cases (next_day current)) [
                    | inr (e, q) ↦
                        rw (inside, days, p, whole, q)
                          (Yields-then_more P here here.ending (some (failed e)) fit tt)
                    | inl (t, q) ↦
                        rw (inside, days, p, whole, q)
                          (Yields-then_more P here here.ending
                            (days get_day transform fuel last t w').0 fit
                            (days-Yields fuel last t w'))
                  ]
                ]
          ]
        ]

    pub days-All :
        (fuel last current : ℕ) (w : W) (x : Extraction)
        → (days get_day transform fuel last current w).0 ≡ some x
        → All P x.yielded
    days-All fuel last current w x h = rw h at (days-Yields fuel last current w)

  module _ {W : Type 0} (get_day : ℕ → Exec W Value) where
    -- Whatever the server answers, every batch of the tickets that `extract` yields becomes rows of
    -- ClickHouse's INSERT: they have the columns of the schema as keys, so none lacks a column.
    pub extract_tickets-loadable :
        (fuel today : ℕ) (start_time end_time : Option ℕ) (w : W) (x : Extraction)
        → (extract_tickets get_day transform fuel today start_time end_time w).0 ≡ some x
        → is_ok (rows_of (column_names tickets_schema.columns) x.yielded) ≡ true
    unfolding extract_tickets
    extract_tickets-loadable fuel today start_time end_time w x h =
        rows_of-Fits tickets_schema x.yielded
          (days-All get_day (Fits tickets_schema) transform_ticket-Fits fuel _ _ w x h)

  -- A transformed ticket passes `validate` exactly when the API gave a ticketId that is not null.
  pub transform_ticket-validate :
      (fields : Fields) (d : Dict Value)
      → transform (obj fields) ≡ ok d
      → validate tickets_schema d ≡ is_present (to_dict fields) "ticketId"
  unfolding validate is_none dict_of cell_of
  transform_ticket-validate fields d h =
      let (r, ticket, customer, contact, folders, is_dict, made) = from_cells (obj fields) d h in
      let cs = cells strip strptime int_of_float now r ticket customer contact folders in
      let id = get-collect "ticket_id" (get_or_none "ticketId" r) cs d made refl in
      let extracted = get-collect "_extracted_at" (time now) cs d made refl in
      rw
        (
          is_present-some d "_extracted_at" (time now) extracted refl,
          copied r d id,
          ← ok_inj is_dict,
        )
        (ground arith)
