-- ===== src/Python/Value.antt =====
-- The values that JSON documents, extracted records and cursors hold.
use turbocat.Prelude.{
  ℕ, zero, ◌≡◌, refl, String, Bool, true, false, not, ◌||◌, List, [], ◌∷◌, str_eq, ◌==◌,
}
use turbocat.Python.Dict.{Dict}

-- Python's unbounded `int`: `negsuc n` is -(n + 1).
pub data ℤ : Type 0 where
  pos : ℕ → ℤ
  negsuc : ℕ → ℤ

-- A float is the bit pattern of its 64 bits, an instant of time the microseconds since the first
-- of January of the year 1.
mutual
  pub data Value : Type 0 where
    null : Value
    bool : Bool → Value
    int : ℤ → Value
    float : ℕ → Value
    text : String → Value
    time : ℕ → Value
    obj : Fields → Value
    arr : Items → Value

  pub data Fields : Type 0 where
    field : String → Value → Fields → Fields
    end : Fields

  pub data Items : Type 0 where
    cons : Value → Items → Items
    nil : Items

-- A JSON array and a JSON object as the list and the dict that `json()` returns.
unfoldable pub to_list : Items → List Value
to_list nil = []
to_list (cons v items) = v ∷ to_list items

unfoldable pub to_dict : Fields → Dict Value
to_dict end = []
to_dict (field k v fields) = (k, v) ∷ to_dict fields

unfoldable pub of_dict : Dict Value → Fields
of_dict [] = end
of_dict ((k, v) ∷ d) = field k v (of_dict d)

pub to_dict-of_dict : (d : Dict Value) → to_dict (of_dict d) ≡ d
unfolding to_dict of_dict
to_dict-of_dict [] = refl
to_dict-of_dict ((k, v) ∷ d) = λ i. (k, v) ∷ to_dict-of_dict d i

-- A dict of texts as a dict of values.
abbrev pub texts : Dict String → Dict Value
texts [] = []
texts ((k, s) ∷ d) = (k, text s) ∷ texts d

-- v is None
unfoldable pub is_none : Value → Bool
is_none null = true
is_none _ = false

-- bool(v): 0 and both zeros of the floats are false, and what is empty.
unfoldable pub truthy : Value → Bool
truthy null = false
truthy (bool b) = b
truthy (int (pos zero)) = false
truthy (int _) = true
truthy (float b) = not (b == 0 || b == 0x8000000000000000)
truthy (text s) = not (str_eq s "")
truthy (time t) = true
truthy (arr nil) = false
truthy (arr (cons v items)) = true
truthy (obj end) = false
truthy (obj (field k v fields)) = true
