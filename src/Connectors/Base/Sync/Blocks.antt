-- ===== src/Connectors/Base/Sync/Blocks.antt =====
-- The reference for the batching of `sync`: a list cut into consecutive blocks of one length.
use turbocat.Prelude.{
  ℕ, zero, suc, ◌+◌, ◌*◌, ◌/◌, ◌<◌, ◌≡◌, refl, sym, ap, ◌∙◌, Option, none, some, List, [], ◌∷◌,
  ◌++◌, length, take, drop, drop-drop, length-append, arith, Exc,
}

module _ {ℓ} {A : Type ℓ} where
  -- The first q blocks of n.
  unfoldable pub blocks : ℕ → ℕ → List A → List (List A)
  blocks zero n xs = []
  blocks (suc q) n xs = take n xs ∷ blocks q n (drop n xs)

  abbrev pub full : ℕ → List A → List (List A)
  full n xs = blocks (length xs / n) n xs

  abbrev pub left_over : ℕ → List A → List A
  left_over n xs = drop ((length xs / n) * n) xs

  abbrev pub last_block : List A → List (List A)
  last_block [] = []
  last_block (x ∷ xs) = (x ∷ xs) ∷ []

  -- All of the list in blocks, the last of them shorter; or, where an exception cut the list off,
  -- the full blocks alone.
  abbrev pub plan : ℕ → Option Exc → List A → List (List A)
  plan n none xs = full n xs ++ last_block (left_over n xs)
  plan n (some e) xs = full n xs

  take-append_self : (xs ys : List A) → take (length xs) (xs ++ ys) ≡ xs
  take-append_self [] ys = refl
  take-append_self (x ∷ xs) ys = ap (λ l. x ∷ l) (take-append_self xs ys)

  drop-append_self : (xs ys : List A) → drop (length xs) (xs ++ ys) ≡ ys
  drop-append_self [] ys = refl
  drop-append_self (x ∷ xs) ys = drop-append_self xs ys

  quotient-append :
      (n : ℕ) (b xs : List A) → 0 < n → length b ≡ n → length (b ++ xs) / n ≡ suc (length xs / n)
  quotient-append n b xs h e = rw (length-append b xs) (grind arith)

  pub full-append :
      (n : ℕ) (b xs : List A) → 0 < n → length b ≡ n → full n (b ++ xs) ≡ b ∷ full n xs
  unfolding blocks
  full-append n b xs h e =
      rw (quotient-append n b xs h e, ← e, take-append_self b xs, drop-append_self b xs)

  pub left_over-append :
      (n : ℕ) (b xs : List A) → 0 < n → length b ≡ n → left_over n (b ++ xs) ≡ left_over n xs
  left_over-append n b xs h e =
      let q = length xs / n in
      let step : suc q * n ≡ length b + q * n = omega (arith, ap (λ (k : ℕ). k + q * n) e) in
      ap (λ k. drop (k * n) (b ++ xs)) (quotient-append n b xs h e)
      ∙ ap (λ k. drop k (b ++ xs)) step
      ∙ sym (drop-drop (length b) (q * n) (b ++ xs))
      ∙ ap (drop (q * n)) (drop-append_self b xs)

  pub plan-append :
      (n : ℕ) (ending : Option Exc) (b xs : List A)
      → 0 < n
      → length b ≡ n
      → plan n ending (b ++ xs) ≡ b ∷ plan n ending xs
  plan-append n none b xs h e = rw (full-append n b xs h e, left_over-append n b xs h e)
  plan-append n (some _) b xs h e = full-append n b xs h e

  pub full_short : (n : ℕ) (xs : List A) → length xs < n → full n xs ≡ []
  unfolding blocks
  full_short n xs h = let e : length xs / n ≡ 0 = grind arith in rw e

  pub left_over_short : (n : ℕ) (xs : List A) → length xs < n → left_over n xs ≡ xs
  left_over_short n xs h = let e : length xs / n * n ≡ 0 = grind arith in rw e
