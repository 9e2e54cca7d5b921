-- ===== src/Prelude/Errors.antt =====
-- A Python expression that may raise. An exception carries its class and the text that `str(exc)`
-- gives; `http_exception` is FastAPI's, with the status code of the response.
use Prim.Native.Nat.{ℕ}
use Prim.Native.String.{String}
use mathlib.Core.Path.{◌≡◌, refl}
use mathlib.Core.Logic.{◌⊎◌, inl, inr}
use mathlib.Core.Bool.{Bool, true, false}

pub data Kind : Type 0 where
  key_error value_error type_error attribute_error overflow_error runtime_error : Kind
  http_exception : ℕ → Kind
  foreign : Kind

pub record Exc : Type 0 where
  pub kind : Kind
  pub text : String

pub data Result {ℓ} (A : Type ℓ) : Type ℓ where
  err : Exc → Result A
  ok : A → Result A

module _ {ℓ κ} {A : Type ℓ} {B : Type κ} where
  -- `try: … except Exception as exc: …`, with what follows a normal return.
  abbrev pub handle : Result A → (Exc → B) → (A → B) → B
  handle (err e) fail done = fail e
  handle (ok a) fail done = done a

  infixl 5 ◌>>=◌
  abbrev pub ◌>>=◌ : Result A → (A → Result B) → Result B
  err e >>= rest = err e
  ok a >>= rest = rest a

  -- A chain that returns has returned at its first step.
  pub >>=-eq-ok :
      (first : Result A) (rest : A → Result B) {b : B}
      → (first >>= rest) ≡ ok b
      → (a : A) × (first ≡ ok a) × (rest a ≡ ok b)
  >>=-eq-ok (err e) rest returned = cc
  >>=-eq-ok (ok a) rest returned = (a, refl, returned)

module _ {ℓ} {A : Type ℓ} where
  abbrev pub is_ok : Result A → Bool
  is_ok (err e) = false
  is_ok (ok a) = true

  pub Result-cases : (r : Result A) → ((a : A) × (r ≡ ok a)) ⊎ ((e : Exc) × (r ≡ err e))
  Result-cases (err e) = inr (e, refl)
  Result-cases (ok a) = inl (a, refl)

  pub ok_inj : {a b : A} → ok a ≡ ok b → a ≡ b
  ok_inj same = cc
