-- ===== src/Connectors/Razorpay/Complete.antt =====
-- The loop over the pages against a server that pages through one collection.
use turbocat.Prelude.{
  ℕ, zero, suc, ◌+◌, ◌*◌, ◌<◌, ◌≤◌, ◌≡◌, refl, sym, ap, ◌∙◌, true, false, Option, none, some, List,
  [], ◌∷◌, length, take, drop, arith, Result, ok, Exc, ◌>>=◌, Bool-cases, Option-cases, inl, inr,
  take-append-drop, length-take, take_all, length-drop, drop-drop,
}
use turbocat.Prelude.Exec.{Exec}
use turbocat.Python.Dict.{Dict}
use turbocat.Python.Value.{Value}
use turbocat.Connectors.Base.Sync.{Extraction}
use turbocat.Connectors.Source.{transform_all, then_more, transform_all-append}
use turbocat.Connectors.Razorpay.Pages.{page_of, stops, count, pages}

module _ {W : Type 0} (get_page : ℕ → Exec W Value) (transform : Value → Result (Dict Value)) where
  -- The documented paging of the API: `skip` and `count` select from one collection.
  abbrev pub Serves : List Value → Type 0
  Serves collection =
      (skip : ℕ) (w : W)
      → ((get_page skip w).0 >>= page_of) ≡ ok (take count (drop skip collection))

  split-page :
      (xs : List Value)
      → transform_all transform xs
        ≡ then_more
            (transform_all transform (take count xs))
            (transform_all transform (drop count xs))
  split-page xs =
      ap (transform_all transform) (sym (take-append-drop count xs))
      ∙ transform_all-append transform (take count xs) (drop count xs)

  then_more-ended : (x rest : Extraction) (e : Exc) → x.ending ≡ some e → then_more x rest ≡ x
  then_more-ended x rest e p = rw p (ground arith)

  stops-short :
      (v : Value) (page : List Value) (o : Option Exc)
      → stops (v ∷ page) o ≡ true
      → o ≡ none
      → length (v ∷ page) < count
  unfolding stops
  stops-short v page o h p = ground arith

  goes_on-full : (page : List Value) (o : Option Exc) → stops page o ≡ false → count ≤ length page
  unfolding stops
  goes_on-full page o h = ground arith

  -- Where the loop stops, the rest of the collection yields nothing more.
  stops-last :
      (xs : List Value)
      → stops (take count xs) (transform_all transform (take count xs)).ending ≡ true
      → transform_all transform (take count xs) ≡ transform_all transform xs
  stops-last [] h = refl
  stops-last (v ∷ vs) h =
      elim (Option-cases (transform_all transform (take count (v ∷ vs))).ending) [
        | inr (e, p) ↦ sym (split-page (v ∷ vs) ∙ then_more-ended _ _ e p)
        | inl p ↦
            let short : length (take count (v ∷ vs)) < count = stops-short v _ _ h p in
            ap (transform_all transform)
              (take_all count (v ∷ vs) (omega (arith, short, length-take count (v ∷ vs))))
      ]

  pages-all :
      (collection : List Value) (serves : Serves collection) (fuel skip : ℕ) (w : W)
      → length (drop skip collection) < fuel * count
      → (pages get_page transform fuel skip w).0
        ≡ some (transform_all transform (drop skip collection))
  unfolding pages
  pages-all collection serves zero skip w h = absurd (omega arith)
  pages-all collection serves (suc fuel) skip w h =
      let xs = drop skip collection in
      let here = transform_all transform (take count xs) in
      elim (Bool-cases (stops (take count xs) here.ending)) [
        | inl last ↦ rw (serves skip w, last) (ap some (stops-last xs last))
        | inr more ↦
            let whole : count ≤ length (take count xs) =
              goes_on-full (take count xs) here.ending more in
            let ih = pages-all collection serves fuel (skip + count) (get_page skip w).1 (
              omega (
                arith,
                whole,
                length-take count xs,
                length-drop skip collection,
                length-drop (skip + count) collection,
              )) in
            rw (serves skip w, more, ih, ← drop-drop skip count collection)
              (ap some (sym (split-page xs)))
      ]

  -- Where the server pages through one collection, the generator yields what `transform` makes of
  -- the whole collection, each item once and in its order, up to the first that `transform` refuses;
  -- one round more than the full pages of the collection is enough for it to end.
  pub pages-Serves :
      (collection : List Value) (fuel : ℕ) (w : W)
      → Serves collection
      → length collection < fuel * count
      → (pages get_page transform fuel 0 w).0 ≡ some (transform_all transform collection)
  pages-Serves collection fuel w serves h = pages-all collection serves fuel 0 w h
