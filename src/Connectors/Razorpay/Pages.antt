-- ===== src/Connectors/Razorpay/Pages.antt =====
-- The `while True` loop of `extract`, and the reading of a page. The request and the decoding of
-- its JSON are a parameter over the state of the outside world.
use turbocat.Prelude.{
  ℕ, zero, suc, ◌+◌, String, Bool, true, false, Option, none, some, List, [], length, ltb,
  if◌then◌else◌, Result, ok, err, Exc, handle, ◌>>=◌, is_nil, ◌||◌, type_error, attribute_error,
}
use mathlib.Core.Option
use turbocat.Prelude.Exec.{Exec}
use turbocat.Python.Dict.{Dict, get?}
use turbocat.Python.Value.{Value, arr, obj, text, to_list, to_dict, end}
use turbocat.Connectors.Base.Sync.{Extraction}
use turbocat.Connectors.Source.{transform_all, then_more}

abbrev pub not_iterable : Exc
not_iterable = record { kind = type_error; text = "the page is no list of objects" }

abbrev pub no_get : Exc
no_get = record { kind = attribute_error; text = "the response is no object" }

-- `len(items)` and the first `transform` raise TypeError for anything that is no list, but for an
-- empty text and an empty object, which end the loop.
unfoldable pub list_of : Value → Result (List Value)
unfolding to_list
list_of (arr items) = ok (to_list items)
list_of (obj end) = ok []
list_of (text String.[]) = ok []
list_of _ = err not_iterable

-- data.get("items", [])
unfoldable pub page_of : Value → Result (List Value)
unfolding list_of to_dict
page_of (obj fields) = elim (get? "items" (to_dict fields)) [ none ↦ ok [] | some v ↦ list_of v ]
page_of _ = err no_get

abbrev pub failed : Exc → Extraction
failed e = record { yielded = []; ending = some e }

abbrev pub is_raised : Option Exc → Bool
is_raised none = false
is_raised (some e) = true

abbrev pub count : ℕ
count = 100

-- `if not page: break`, an exception on the way, `if len(page) < count: break`. (An empty page
-- yields nothing.)
unfoldable pub stops : List Value → Option Exc → Bool
stops page ending = is_nil page || is_raised ending || ltb (length page) count

-- `get_page skip` is `self.http_client.get(self.endpoint, params).json()`.
module _ {W : Type 0} (get_page : ℕ → Exec W Value) (transform : Value → Result (Dict Value)) where
  -- One page for each unit of fuel; `none` means that the fuel ran out.
  unfoldable pub pages : ℕ → ℕ → W → Option Extraction × W
  unfolding page_of transform_all stops
  pages zero skip w = (none, w)
  pages (suc fuel) skip w =
      let (response, w') = get_page skip w in
      let (later, w'') = pages fuel (skip + count) w' in
      handle (response >>= page_of) (λ e. (some (failed e), w'))
        (λ page.
          let here = transform_all transform page in
          if stops page here.ending
          then (some here, w')
          else (Option.map (then_more here) later, w''))
