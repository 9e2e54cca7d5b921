-- ===== src/Connectors/Kapture/Typing.antt =====
-- The types of a ticket's columns.
use turbocat.Prelude.{
  ℕ, String, true, ◌≡◌, refl, Option, some, List, [], ◌∷◌, All, Result, ok, arith, >>=-eq-ok,
  ok_inj,
}
use turbocat.Prelude.Exec.{Exec}
use turbocat.Python.Dict.{Dict}
use turbocat.Python.Value.{ℤ, Value, time, is_none}
use turbocat.Connectors.Base.Schema.{ColumnSchema}
use turbocat.Connectors.Base.Sync.{Extraction}
use turbocat.Connectors.Base.Typing.{has_type, IsTyped, ◌&◌}
use turbocat.Connectors.Kapture.Tickets.{
  Cells, collect, cells, parse_dt, to_int, transform_ticket, tickets_schema,
}
use turbocat.Connectors.Kapture.Rows.{from_cells, days-All}
use turbocat.Connectors.Kapture.Days.{extract_tickets}

-- What the cell computes, if it computes, has the type.
abbrev Holds : String → Result Value → Type 0
Holds type cell = (v : Value) → cell ≡ ok v → has_type type v ≡ true

abbrev AllHold : List ColumnSchema → Cells → Type 0
AllHold [] [] = Unit
AllHold (c ∷ columns) ((k, cell) ∷ rest) = ((k ≡ c.name) × Holds c.type cell) × AllHold columns rest
AllHold _ _ = ⊥

collect-IsTyped :
    (columns : List ColumnSchema) (cs : Cells) (d : Dict Value)
    → AllHold columns cs
    → collect cs ≡ ok d
    → IsTyped columns d
unfolding collect
collect-IsTyped [] [] d h made = rw (← ok_inj made) tt
collect-IsTyped [] (cell ∷ cs) d h made = absurd h
collect-IsTyped (c ∷ columns) [] d h made = absurd h
collect-IsTyped (c ∷ columns) ((k, cell) ∷ cs) d ((same, typed), rest) made =
    let (v, computed, made₁) = >>=-eq-ok cell _ made in
    let (ds, done, made₂) = >>=-eq-ok (collect cs) _ made₁ in
    rw (← ok_inj made₂) ((same, typed v computed), collect-IsTyped columns cs ds rest done)

string_cell : {cell : Result Value} → Holds "string" cell
unfolding has_type is_none
string_cell v h = ground arith

now_cell : {now : ℕ} → Holds "datetime" (ok (time now))
unfolding has_type is_none
now_cell v h = rw (← ok_inj h) refl

module _ (strip : String → String) (strptime : String → Option ℕ) (int_of_float : ℕ → Result ℤ)
    (now : ℕ) where
  int_cell : (v : Value) → Holds "integer" (to_int strip strptime int_of_float now v)
  unfolding to_int has_type is_none
  int_cell v w h = ground arith

  time_cell : (d t : Value) → Holds "datetime" (parse_dt strip strptime int_of_float now d t)
  unfolding parse_dt has_type is_none
  time_cell d t w h = ground arith

  all_cells :
      (r ticket customer contact folders : Dict Value)
      → AllHold tickets_schema.columns
          (cells strip strptime int_of_float now r ticket customer contact folders)
  all_cells r ticket customer contact folders =
      (refl, string_cell)
      & (refl, string_cell)
      & (refl, string_cell)
      & (refl, string_cell)
      & (refl, string_cell)
      & (refl, string_cell)
      & (refl, string_cell)
      & (refl, string_cell)
      & (refl, time_cell _ _)
      & (refl, time_cell _ _)
      & (refl, string_cell)
      & (refl, string_cell)
      & (refl, string_cell)
      & (refl, string_cell)
      & (refl, string_cell)
      & (refl, string_cell)
      & (refl, string_cell)
      & (refl, string_cell)
      & (refl, string_cell)
      & (refl, string_cell)
      & (refl, string_cell)
      & (refl, string_cell)
      & (refl, string_cell)
      & (refl, string_cell)
      & (refl, int_cell _)
      & (refl, int_cell _)
      & (refl, int_cell _)
      & (refl, int_cell _)
      & (refl, int_cell _)
      & (refl, int_cell _)
      & (refl, string_cell)
      & (refl, string_cell)
      & (refl, string_cell)
      & (refl, string_cell)
      & (refl, string_cell)
      & (refl, string_cell)
      & (refl, string_cell)
      & (refl, string_cell)
      & (refl, string_cell)
      & (refl, string_cell)
      & (refl, string_cell)
      & (refl, string_cell)
      & (refl, string_cell)
      & (refl, now_cell)
      & tt

  transform_ticket-IsTyped :
      (value : Value) (d : Dict Value)
      → transform_ticket strip strptime int_of_float now value ≡ ok d
      → IsTyped tickets_schema.columns d
  transform_ticket-IsTyped value d h =
      let (r, ticket, customer, contact, folders, _, made) =
        from_cells strip strptime int_of_float now value d h in
      collect-IsTyped tickets_schema.columns
        (cells strip strptime int_of_float now r ticket customer contact folders) d
        (all_cells r ticket customer contact folders) made

  -- Whatever the server answers, each ticket that `extract` yields has exactly the columns of the
  -- schema, in their order, and an "integer" column of it holds an int or None, a "datetime"
  -- column a datetime or None.
  pub extract_tickets-IsTyped :
      {W : Type 0} (get_day : ℕ → Exec W Value) (fuel today : ℕ) (start_time end_time : Option ℕ)
      (w : W) (x : Extraction)
      → (extract_tickets get_day
          (transform_ticket strip strptime int_of_float now)
          fuel
          today
          start_time
          end_time
          w).0
        ≡ some x
      → All (IsTyped tickets_schema.columns) x.yielded
  unfolding extract_tickets
  extract_tickets-IsTyped get_day fuel today start_time end_time w x h =
      days-All strip strptime int_of_float now get_day (IsTyped tickets_schema.columns)
        transform_ticket-IsTyped fuel _ _ w x h
