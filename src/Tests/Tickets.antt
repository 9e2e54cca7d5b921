-- ===== src/Tests/Tickets.antt =====
-- The tickets connector on the first two days of the calendar.
use turbocat.Connectors.Base.Typing.{IsTyped}
use turbocat.Connectors.Kapture.Typing.{extract_tickets-IsTyped}
use turbocat.Prelude.{
  All, ℕ, ◌+◌, ◌/◌, String, ◌≡◌, refl, Option, none, some, List, [], ◌∷◌, Result, ok, err, arith,
  ◌==◌, if◌then◌else◌,
}
use turbocat.Prelude.Exec.{Exec}
use turbocat.Python.Dict.{Dict, get?}
use turbocat.Python.Value.{ℤ, pos, Value, Fields, int, text, obj, arr, end, field, to_dict, to_list}
use turbocat.Python.Time.{day}
use turbocat.Connectors.Source.{transform_all}
use turbocat.Connectors.Kapture.Tickets.{transform_ticket, tickets_schema}
use turbocat.Connectors.Base.Sync.{Extraction}
use turbocat.Connectors.Kapture.Days.{extract_tickets, days, tickets_of, ServesDays, tickets_from}
use turbocat.Connectors.Kapture.Windows.{days-ServesDays}
use turbocat.Tests.Fixtures.{bad, now}
use turbocat.Tests.Payments.{items_of, to_list-items_of}

abbrev strip : String → String
strip s = s

abbrev strptime : String → Option ℕ
strptime s = none

abbrev int_of_float : ℕ → Result ℤ
int_of_float b = err bad

abbrev ticket_fields : Fields
ticket_fields = field "ticketId" (text "7") (field "reopenCount" (text "2") end)

abbrev ticket : Value
ticket = obj ticket_fields

abbrev tickets : ℕ → List Value
tickets d = if d == 1 then ticket ∷ [] else []

abbrev get_day : ℕ → Exec (Unit {0}) Value
get_day current w = (ok (arr (items_of (tickets (current / day)))), w)

served : ServesDays get_day (transform_ticket strip strptime int_of_float now) tickets
unfolding tickets_of
served current w =
    (arr (items_of (tickets (current / day))), refl, to_list-items_of (tickets (current / day)))

days-ServesDays_example :
    (days get_day (transform_ticket strip strptime int_of_float now) 3 (day + 5) 0 tt).0
    ≡ some (
        transform_all
          (transform_ticket strip strptime int_of_float now)
          (tickets_from get_day (transform_ticket strip strptime int_of_float now) tickets 2 0))
days-ServesDays_example =
    days-ServesDays get_day (transform_ticket strip strptime int_of_float now) tickets 3 2 (day + 5)
      0 tt served (omega arith) refl (omega arith)

made : (d : Dict Value) × (transform_ticket strip strptime int_of_float now ticket ≡ ok d)
unfolding transform_ticket turbocat.Python.Value.truthy turbocat.Connectors.Source.get_or_none get?
    to_dict turbocat.Connectors.Kapture.Tickets.parse_dt turbocat.Connectors.Kapture.Tickets.to_int
    turbocat.Python.IntOf.int_of
made = (_, refl)

abbrev extracted : Option Extraction
extracted =
    (extract_tickets get_day (transform_ticket strip strptime int_of_float now) 3 (day + 5) none
      none tt).0

found : (x : Extraction) × (extracted ≡ some x)
unfolding extract_tickets transform_ticket turbocat.Python.Value.truthy
    turbocat.Connectors.Source.get_or_none get? to_dict turbocat.Connectors.Kapture.Tickets.parse_dt
    turbocat.Connectors.Kapture.Tickets.to_int turbocat.Python.IntOf.int_of
    turbocat.Python.Time.next_day
found = (_, refl)

extract_tickets-IsTyped_example : All (IsTyped tickets_schema.columns) found.0.yielded
extract_tickets-IsTyped_example =
    extract_tickets-IsTyped strip strptime int_of_float now get_day 3 (day + 5) none none tt found.0
      found.1
