-- ===== src/Connectors/Razorpay/Yields.antt =====
-- What holds of every record that `transform` makes holds of every record that the loop yields,
-- whatever the server answers.
use mathlib.Core.Option
use turbocat.Prelude.{
  ℕ, zero, suc, ◌+◌, ◌≡◌, Option, none, some, All, All-append, Result, ok, Exc, ◌>>=◌, Result-cases,
  Bool-cases, inl, inr,
}
use turbocat.Prelude.Exec.{Exec}
use turbocat.Python.Dict.{Dict}
use turbocat.Python.Value.{Value}
use turbocat.Connectors.Base.Sync.{Extraction}
use turbocat.Connectors.Source.{transform_all, end_with, transform_all_ind}
use turbocat.Connectors.Razorpay.Pages.{page_of, stops, count, pages}

module _ (P : Dict Value → Type 0) where
  -- Holds of an extraction that is there.
  abbrev pub Yields : Option Extraction → Type 0
  Yields none = Unit
  Yields (some x) = All P x.yielded

  pub Yields-then_more :
      (x : Extraction) (o : Option Exc) (later : Option Extraction)
      → All P x.yielded
      → Yields later
      → Yields (Option.map (end_with x.yielded o) later)
  Yields-then_more x o none h k = tt
  Yields-then_more x none (some y) h k = All-append P x.yielded y.yielded h k
  Yields-then_more x (some e) (some y) h k = h

module _ {W : Type 0} (get_page : ℕ → Exec W Value) (transform : Value → Result (Dict Value))
    (P : Dict Value → Type 0)
    (makes : (v : Value) (r : Dict Value) → transform v ≡ ok r → P r) where
  pages-Yields : (fuel skip : ℕ) (w : W) → Yields P (pages get_page transform fuel skip w).0
  unfolding pages
  pages-Yields zero skip w = tt
  pages-Yields (suc fuel) skip w =
      let (response, w') = get_page skip w in
      elim (Result-cases (response >>= page_of)) [
        | inr (e, p) ↦ rw p tt
        | inl (page, p) ↦
            let here = transform_all transform page in
            let made = transform_all_ind transform P makes page in
            elim (Bool-cases (stops page here.ending)) [
              | inl last ↦ rw (p, last) made
              | inr more ↦
                  rw (p, more)
                    (Yields-then_more P here here.ending
                      (pages get_page transform fuel (skip + count) w').0 made
                      (pages-Yields fuel (skip + count) w'))
            ]
      ]

  pub pages-All :
      (fuel skip : ℕ) (w : W) (x : Extraction)
      → (pages get_page transform fuel skip w).0 ≡ some x
      → All P x.yielded
  pages-All fuel skip w x h = rw h at (pages-Yields fuel skip w)
