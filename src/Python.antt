-- ===== src/Python.antt =====
-- What the program uses of Python itself: dicts with text keys, the values that a JSON document or
-- a record holds, `int(text)`, and instants of time. The children hold one part each.
pub mod Dict
pub mod Value
pub mod IntOf
pub mod Time
pub mod Text
