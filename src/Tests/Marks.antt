-- ===== src/Tests/Marks.antt =====
-- Numbers as texts.
use Prim.Native.String.{◌∷◌ as cons, count}
use text.Mathlib.TextLemmas.{length-cons}
use turbocat.Prelude.{ℕ, zero, suc, String, ◌≡◌, refl, ap, ◌∙◌}

-- A text for each number.
abbrev pub marks : ℕ → String
marks zero = ""
marks (suc n) = cons "x" (marks n)

pub marks_inj : (i j : ℕ) → marks i ≡ marks j → i ≡ j
marks_inj zero zero h = refl
marks_inj zero (suc j) h = cc
marks_inj (suc i) zero h = cc
marks_inj (suc i) (suc j) h = ap suc (marks_inj i j cc)

pub count-marks : (n : ℕ) → count (marks n) ≡ n
count-marks zero = refl
count-marks (suc n) = length-cons "x" (marks n) ∙ ap suc (count-marks n)
