-- ===== src/Tests/Routings.antt =====
-- A routing as FastAPI documents it.
use mathlib.Core.Option
use turbocat.Prelude.{
  String, Bool, true, false, ◌≡◌, refl, subst, Option, none, some, List, [], ◌∷◌, Result, ok, err,
  Exc, http_exception, str_eq, eq_iff, if◌then◌else◌, Bool-cases, Option-cases, inl, inr, arith,
}
use turbocat.Orchestrator.App.Routing.{
  HttpRequest, Segment, lit, param, Endpoint, Route, Captures, Dispatch, IsDispatch,
}

-- What the parameters of the pattern stand for, if the path has its form. A parameter is not empty.
unfoldable match : List Segment → List String → Option (List String)
match [] [] = some []
match [] (s ∷ path) = none
match (p ∷ pattern) [] = none
match (lit name ∷ pattern) (s ∷ path) = if str_eq s name then match pattern path else none
match (param ∷ pattern) (s ∷ path) =
    let rest = match pattern path in
    if str_eq s "" then none else Option.map (λ captured. s ∷ captured) rest

abbrev no_route : Bool → Exc
no_route true = record { kind = http_exception 405; text = "Method Not Allowed" }
no_route false = record { kind = http_exception 404; text = "Not Found" }

-- The first route with the path and the method; `known` says that a route before has the path.
unfoldable select : List Route → HttpRequest → Bool → Result (Endpoint × List String)
unfolding match
select [] request known = err (no_route known)
select (r ∷ rest) request known = elim (match r.pattern request.path) [
  | none ↦ select rest request known
  | some captured ↦
      if str_eq r.method request.method then ok (r.endpoint, captured) else select rest request true
]

match-Captures :
    (pattern : List Segment) (path captured : List String)
    → Captures pattern path captured
    → match pattern path ≡ some captured
unfolding match
match-Captures [] [] [] h = refl
match-Captures (lit name ∷ pattern) (s ∷ path) captured (e, h) =
    rw ((eq_iff s name).1 e) (match-Captures pattern path captured h)
match-Captures (param ∷ pattern) (s ∷ path) (c ∷ captured) (full, e, h) =
    let ih = match-Captures pattern path captured h in
    elim (Bool-cases (str_eq s "")) [
      | inl p ↦ absurd (full ((eq_iff s "").0 p))
      | inr p ↦ rw (p, ih, e) refl
    ]
match-Captures [] [] (c ∷ captured) h = absurd h
match-Captures [] (s ∷ path) captured h = absurd h
match-Captures (lit name ∷ pattern) [] captured h = absurd h
match-Captures (param ∷ pattern) [] captured h = absurd h
match-Captures (param ∷ pattern) (s ∷ path) [] h = absurd h

the_captured : (xs ys : List String) → some xs ≡ some ys → xs ≡ ys
the_captured xs ys h = cc

Captures-match :
    (pattern : List Segment) (path captured : List String)
    → match pattern path ≡ some captured
    → Captures pattern path captured
unfolding match
Captures-match [] [] captured h = subst (Captures [] []) (the_captured [] captured h) tt
Captures-match [] (s ∷ path) captured h = absurd (ground arith)
Captures-match (lit name ∷ pattern) [] captured h = absurd (ground arith)
Captures-match (param ∷ pattern) [] captured h = absurd (ground arith)
Captures-match (lit name ∷ pattern) (s ∷ path) captured h = elim (Bool-cases (str_eq s name)) [
  | inl p ↦ ((eq_iff s name).0 p, Captures-match pattern path captured (rw p at h))
  | inr p ↦ absurd (ground arith)
]
Captures-match (param ∷ pattern) (s ∷ path) captured h = elim (Bool-cases (str_eq s "")) [
  | inl p ↦ absurd (ground arith)
  | inr p ↦ elim (Option-cases (match pattern path)) [
    | inl q ↦ absurd (ground arith)
    | inr (rest, q) ↦
        subst (Captures (param ∷ pattern) (s ∷ path))
          (the_captured (s ∷ rest) captured (rw (p, q) at h))
          (
            λ e. absurd (ground (arith, (eq_iff s "").1 e)),
            refl,
            Captures-match pattern path rest q,
          )
  ]
]

known_too :
    (routes : List Route) (request : HttpRequest) (found : Endpoint × List String)
    → select routes request false ≡ ok found
    → select routes request true ≡ ok found
unfolding select
known_too [] request found h = cc
known_too (r ∷ rest) request found h = elim (Option-cases (match r.pattern request.path)) [
  | inl p ↦ rw (select, p) (known_too rest request found (rw (select, p) at h))
  | inr (captured, p) ↦ elim (Bool-cases (str_eq r.method request.method)) [
    | inl m ↦ rw (select, p, m) (rw (select, p, m) at h)
    | inr m ↦ rw (select, p, m) (rw (select, p, m) at h)
  ]
]

pub dispatch : Dispatch
dispatch routes request = select routes request false

pub dispatch-IsDispatch : IsDispatch dispatch
unfolding dispatch select
dispatch-IsDispatch = record {
  takes = λ r rest request captured same h.
      rw
        (
          select,
          match-Captures r.pattern request.path captured h,
          (eq_iff r.method request.method).1 same,
        )
        refl;
  skips = λ r rest request found misses h. elim (Option-cases (match r.pattern request.path)) [
    | inl p ↦ rw (select, p) h
    | inr (captured, p) ↦ elim (Bool-cases (str_eq r.method request.method)) [
      | inr m ↦ rw (select, p, m) (known_too rest request found h)
      | inl m ↦ elim misses [
        | inl other ↦ absurd (other ((eq_iff r.method request.method).0 m))
        | inr off ↦ absurd (off captured (Captures-match r.pattern request.path captured p))
      ]
    ]
  ];
}
