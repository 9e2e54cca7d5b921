-- ===== src/Connectors/Source.antt =====
-- What the source connectors do alike: they read the fields of a decoded record, and yield what
-- `transform` makes of each record of a page.
use turbocat.Prelude.{
  String, ◌≡◌, refl, Option, none, some, List, [], ◌∷◌, ◌++◌, arith, Result, ok, err, Exc, handle,
  type_error, key_error, All, Result-cases, inl, inr,
}
use Prim.Native.String.{◌++◌ as str_append}
use turbocat.Python.Dict.{Dict, get?}
use turbocat.Python.Value.{Value, null, obj, to_dict}
use turbocat.Connectors.Base.Sync.{Extraction}

-- `record["id"]` on anything that is no dict
abbrev pub not_a_dict : Exc
not_a_dict = record { kind = type_error; text = "the record is no dict" }

unfoldable pub fields_of : Value → Result (Dict Value)
fields_of (obj fields) = ok (to_dict fields)
fields_of _ = err not_a_dict

-- record[name]
unfoldable pub item : String → Dict Value → Result Value
item name r = elim (get? name r) [
  | none ↦ err (record { kind = key_error; text = str_append "'" (str_append name "'") })
  | some v ↦ ok v
]

-- record.get(name)
unfoldable pub get_or_none : String → Dict Value → Value
get_or_none name r = elim (get? name r) [ none ↦ null | some v ↦ v ]

-- `for item in page: yield self.transform(item)`: what is yielded before the first exception.
unfoldable pub transform_all : (Value → Result (Dict Value)) → List Value → Extraction
transform_all transform [] = record { yielded = []; ending = none }
transform_all transform (v ∷ page) =
    handle (transform v) (λ e. record { yielded = []; ending = some e })
      (λ r.
        let rest = transform_all transform page in
        record { yielded = r ∷ rest.yielded; ending = rest.ending })

-- The records of one run of the generator, and then those of another, if no exception ended it.
abbrev pub end_with : List (Dict Value) → Option Exc → Extraction → Extraction
end_with rs (some e) rest = record { yielded = rs; ending = some e }
end_with rs none rest = record { yielded = rs ++ rest.yielded; ending = rest.ending }

abbrev pub then_more : Extraction → Extraction → Extraction
then_more x rest = end_with x.yielded x.ending rest

-- Over two pages one after the other: the second is read if the first ended without an exception.
pub transform_all-append :
    (transform : Value → Result (Dict Value)) (xs ys : List Value)
    → transform_all transform (xs ++ ys)
      ≡ then_more (transform_all transform xs) (transform_all transform ys)
unfolding transform_all
transform_all-append transform [] ys = refl
transform_all-append transform (x ∷ xs) ys = ground (arith, transform_all-append transform xs ys)

-- A record that passes is what `transform` made of some item.
pub transform_all_ind {ℓ} :
    (transform : Value → Result (Dict Value)) (P : Dict Value → Type ℓ)
    → ((v : Value) (r : Dict Value) → transform v ≡ ok r → P r)
    → (xs : List Value) → All P (transform_all transform xs).yielded
unfolding transform_all
transform_all_ind transform P h [] = tt
transform_all_ind transform P h (v ∷ xs) = elim (Result-cases (transform v)) [
  | inl (r, e) ↦ rw e (h v r e, transform_all_ind transform P h xs)
  | inr (e, p) ↦ rw p tt
]
