-- ===== src/Connectors/Kapture/Windows.antt =====
-- The loop over the days against a server that answers by day.
use turbocat.Prelude.{
  ℕ, zero, suc, ◌+◌, ◌*◌, ◌/◌, ◌<◌, ◌≤◌, ◌≡◌, refl, sym, ap, ◌∙◌, true, false, some, List, ◌++◌,
  leb, lt→ltb, Result, ok, Exc, arith, Option-cases, inl, inr,
}
use turbocat.Prelude.Exec.{Exec}
use turbocat.Python.Dict.{Dict}
use turbocat.Python.Value.{Value}
use turbocat.Python.Time.{day, end_of_time, next_day}
use turbocat.Connectors.Source.{transform_all, transform_all-append}
use turbocat.Connectors.Kapture.Days.{days, ServesDays, tickets_from}

day_after : (t : ℕ) → (t + day) / day ≡ suc (t / day)
day_after t = grind arith

within : (t : ℕ) → t < t / day * day + day
within t = grind arith

floor : (t : ℕ) → t / day * day ≤ t
floor t = grind arith

next_day-ok :
    (t last : ℕ) → t / day ≤ last / day → last + 2 * day < end_of_time → next_day t ≡ ok (t + day)
unfolding next_day
next_day-ok t last h room =
    ground (arith, lt→ltb (t + day) end_of_time (omega (arith, within t, floor last)))

module _ {W : Type 0} (get_day : ℕ → Exec W Value) (transform : Value → Result (Dict Value))
    (tickets : ℕ → List Value) where
  ended_early :
      (xs ys : List Value) (e : Exc)
      → (transform_all transform xs).ending ≡ some e
      → transform_all transform (xs ++ ys) ≡ transform_all transform xs
  ended_early xs ys e h = transform_all-append transform xs ys ∙ rw h (ground arith)

  -- Where the server answers every request for a day, with a list of the tickets of that day or with
  -- something else for none, the window has n days and ends more than two days before the calendar
  -- does, and the fuel is more than n: the generator ends, and yields what `transform` makes of the
  -- tickets of the n days from the first of the window to the last, in the order of the days, up to
  -- the first that `transform` refuses, whose exception ends it.
  pub days-ServesDays :
      (fuel n last current : ℕ) (w : W)
      → ServesDays get_day transform tickets
      → last + 2 * day < end_of_time
      → current / day + n ≡ suc (last / day)
      → n < fuel
      → (days get_day transform fuel last current w).0
        ≡ some (transform_all transform (tickets_from get_day transform tickets n (current / day)))
  unfolding days
  days-ServesDays zero n last current w serves room span enough = absurd (omega arith)
  days-ServesDays (suc fuel) zero last current w serves room span enough =
      let past : leb (current / day) (last / day) ≡ false = ground arith in rw (past, days) refl
  days-ServesDays (suc fuel) (suc n) last current w serves room span enough =
      let inside : leb (current / day) (last / day) ≡ true = ground arith in
      let (v, answered, items) = serves current w in
      let here = tickets (current / day) in
      elim (Option-cases (transform_all transform here).ending) [
        | inr (e, bad) ↦
            rw (inside, days, answered, items, bad) (ap some (sym (ended_early here _ e bad)))
        | inl fine ↦
            let moved = next_day-ok current last (omega arith) room in
            let ih =
              days-ServesDays fuel n last (current + day) (get_day current w).1 serves room
                (rw (day_after current) (omega arith)) (omega arith) in
            rw (inside, days, answered, items, fine, moved, ih, day_after current, items)
              (ap some (sym (transform_all-append transform here _)))
      ]
