-- ===== src/Python/IntOf.antt =====
-- `int(s)` of a text: white space around, a sign, and decimal digits with single `_` between them.
-- Texts of more than 4300 digits, which CPython refuses, and digits outside ASCII are left out.
use Prim.Native.Char.{code}
use turbocat.Prelude.{
  ℕ, ◌+◌, ◌-◌, ◌*◌, String, Bool, true, false, ◌&&◌, ◌||◌, ◌≡◌, refl, Option, none, some, List, [],
  ◌∷◌, ◌==◌, leb, if◌then◌else◌,
}
use turbocat.Python.Value.{ℤ, pos, negsuc}
use mathlib.Core.List.{reverse}

abbrev pub codes : String → List ℕ
codes String.[] = []
codes (String.◌∷◌ c s) = code c ∷ codes s

unfoldable pub is_space : ℕ → Bool
is_space c = c == b' ' || (leb 9 c && leb c 13) || (leb 28 c && leb c 31)

unfoldable pub strip_left : List ℕ → List ℕ
unfolding is_space
strip_left [] = []
strip_left (c ∷ cs) = let rest = strip_left cs in if is_space c then rest else c ∷ cs

-- s.strip()
unfoldable pub strip : List ℕ → List ℕ
unfolding strip_left
strip cs = reverse (strip_left (reverse (strip_left cs)))

-- `after_digit`: an underscore or the end may stand here.
unfoldable pub digits_of : Bool → ℕ → List ℕ → Option ℕ
digits_of after_digit n [] = if after_digit then some n else none
digits_of after_digit n (c ∷ cs) =
    let digit = digits_of true (n * 10 + (c - b'0')) cs in
    let gap = digits_of false n cs in
    if leb b'0' c && leb c b'9' then digit else if c == b'_' && after_digit then gap else none

abbrev negate : Option ℕ → Option ℤ
negate none = none
negate (some ℕ.zero) = some (pos 0)
negate (some (ℕ.suc n)) = some (negsuc n)

abbrev plain : Option ℕ → Option ℤ
plain none = none
plain (some n) = some (pos n)

unfoldable pub signed_of : List ℕ → Option ℤ
unfolding digits_of
signed_of [] = none
signed_of (c ∷ cs) =
    if c == b'-'
    then negate (digits_of false 0 cs)
    else if c == b'+'
    then plain (digits_of false 0 cs)
    else plain (digits_of false 0 (c ∷ cs))

-- `none` is the ValueError.
unfoldable pub int_of : String → Option ℤ
unfolding strip signed_of
int_of s = signed_of (strip (codes s))

int_of_tests :
    (int_of " 120 " ≡ some (pos 120))
    × (int_of "-3" ≡ some (negsuc 2))
    × (int_of "1_000" ≡ some (pos 1000))
    × (int_of "1__0" ≡ none)
    × (int_of "12x" ≡ none)
    × (int_of "" ≡ none)
unfolding int_of
int_of_tests = (refl, refl, refl, refl, refl, refl)
