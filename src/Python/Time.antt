-- ===== src/Python/Time.antt =====
-- `datetime` and `timedelta`: an instant is a number of microseconds, and arithmetic that leaves
-- the years 1 to 9999 raises OverflowError.
use turbocat.Prelude.{
  ℕ, suc, ◌+◌, ◌-◌, ◌*◌, ltb, if◌then◌else◌, Result, ok, err, Exc, overflow_error,
}
use turbocat.Python.Value.{ℤ, pos, negsuc}

abbrev pub day : ℕ
day = 86_400_000_000

-- The first microsecond after 31 December 9999.
abbrev pub end_of_time : ℕ
end_of_time = 3_652_059 * day

abbrev overflow : Exc
overflow = record { kind = overflow_error; text = "date value out of range" }

-- t - timedelta(days=n)
unfoldable pub minus_days : ℕ → ℤ → Result ℕ
minus_days t (pos n) = if ltb t (n * day) then err overflow else ok (t - n * day)
minus_days t (negsuc n) =
    let t' = t + suc n * day in if ltb t' end_of_time then ok t' else err overflow

-- t + timedelta(days=1)
unfoldable pub next_day : ℕ → Result ℕ
next_day t = let t' = t + day in if ltb t' end_of_time then ok t' else err overflow
