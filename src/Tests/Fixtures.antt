-- ===== src/Tests/Fixtures.antt =====
-- The inputs of the tests.
use turbocat.Prelude.{
  ℕ, ◌*◌, String, true, Option, none, some, List, [], ◌∷◌, ◌++◌, Result, ok, err, Exc, value_error,
  str_eq, ◌==◌, if◌then◌else◌,
}
use turbocat.Prelude.Exec.{Exec}
use turbocat.Python.Dict.{Dict}
use turbocat.Python.Value.{Value, text, null}
use turbocat.Python.Time.{day}
use turbocat.Connectors.Base.Schema.{TableSchema}
use turbocat.Connectors.Base.Sync.{Extraction}
use turbocat.Connectors.Razorpay.Orders.{column}

abbrev pub bad : Exc
bad = record { kind = value_error; text = "bad" }

abbrev pub now : ℕ
now = 10 * day

-- A clock whose texts name one day.
abbrev pub iso : ℕ → String
iso t = if t == now then "day 10" else "another day"

abbrev pub from_iso : String → Result ℕ
from_iso s = if str_eq s "day 10" then ok now else err bad

-- A database that keeps the rows of each INSERT.
abbrev pub Rows : Type 0
Rows = List (List (List Value))

abbrev pub execute : String → Option (List (List Value)) → Exec Rows (Unit {0})
execute sql none db = (ok tt, db)
execute sql (some rows) db = (ok tt, db ++ rows ∷ [])

abbrev pub tiny : TableSchema
tiny = record { table_name = "tiny"; columns = column "id" "string" true ∷ [] }

abbrev pub row : String → Dict Value
row id = ("id", text id) ∷ []

abbrev pub no_id : Dict Value
no_id = ("id", null) ∷ []

-- Three records, and one that `validate` drops.
abbrev pub four : Extraction
four = record { yielded = row "a" ∷ no_id ∷ row "b" ∷ row "c" ∷ []; ending = none }

-- The generator raises after its first record.
abbrev pub broken : Extraction
broken = record { yielded = row "a" ∷ []; ending = some bad }
