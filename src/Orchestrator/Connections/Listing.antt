-- ===== src/Orchestrator/Connections/Listing.antt =====
-- `list_connections`: the SELECT with its filter and its order. PostgreSQL leaves the order of rows
-- with one `created_at` open; here they stay in the order of the table.
use mathlib.Core.List.{Perm}
use mathlib.Core.List.Perm
use turbocat.Prelude.{
  ℕ, ◌≤◌, List, [], ◌∷◌, filter, All, ◌==◌, leb, leb→le, if◌then◌else◌, arith, Bool-cases, inl, inr,
}
use turbocat.Orchestrator.Models.{Connection, Db}

-- ORDER BY created_at DESC, one row into the rows that are in order.
unfoldable pub newest_first : Connection → List Connection → List Connection
newest_first c [] = c ∷ []
newest_first c (d ∷ ds) =
    if leb d.created_at c.created_at then c ∷ d ∷ ds else d ∷ newest_first c ds

unfoldable pub by_created_at : List Connection → List Connection
unfolding newest_first
by_created_at [] = []
by_created_at (c ∷ cs) = newest_first c (by_created_at cs)

unfoldable pub list_connections : Db → ℕ → List Connection
unfolding by_created_at
list_connections db account_id =
    by_created_at (filter (λ c. c.account_id == account_id) db.connections)

abbrev pub NoneNewer : ℕ → List Connection → Type 0
NoneNewer t cs = All (λ (c : Connection). c.created_at ≤ t) cs

abbrev pub IsNewestFirst : List Connection → Type 0
IsNewestFirst [] = Unit
IsNewestFirst (c ∷ cs) = NoneNewer c.created_at cs × IsNewestFirst cs

newest_first-perm : (c : Connection) (cs : List Connection) → Perm (newest_first c cs) (c ∷ cs)
unfolding newest_first
newest_first-perm c [] = Perm.refl _
newest_first-perm c (d ∷ ds) = elim (Bool-cases (leb d.created_at c.created_at)) [
  | inl late ↦ rw late (Perm.refl _)
  | inr early ↦ rw early (Perm.trans (Perm.cons d (newest_first-perm c ds)) (Perm.swap c d ds))
]

newest_first-NoneNewer :
    (t : ℕ) (c : Connection) (cs : List Connection)
    → c.created_at ≤ t
    → NoneNewer t cs
    → NoneNewer t (newest_first c cs)
unfolding newest_first
newest_first-NoneNewer t c [] h hs = (h, tt)
newest_first-NoneNewer t c (d ∷ ds) h hs = elim (Bool-cases (leb d.created_at c.created_at)) [
  | inl late ↦ rw late (h, hs)
  | inr early ↦ rw early (hs.0, newest_first-NoneNewer t c ds h hs.1)
]

older : (t u : ℕ) (cs : List Connection) → t ≤ u → NoneNewer t cs → NoneNewer u cs
older t u [] h hs = tt
older t u (c ∷ cs) h hs = (omega (arith, hs.0), older t u cs h hs.1)

newest_first-IsNewestFirst :
    (c : Connection) (cs : List Connection) → IsNewestFirst cs → IsNewestFirst (newest_first c cs)
unfolding newest_first
newest_first-IsNewestFirst c [] h = (tt, tt)
newest_first-IsNewestFirst c (d ∷ ds) h = elim (Bool-cases (leb d.created_at c.created_at)) [
  | inl late ↦
      let le = leb→le d.created_at c.created_at late in
      rw late ((le, older d.created_at c.created_at ds le h.0), h)
  | inr early ↦ rw early (
    newest_first-NoneNewer d.created_at c ds (ground arith) h.0,
    newest_first-IsNewestFirst c ds h.1,
  )
]

by_created_at-perm : (cs : List Connection) → Perm (by_created_at cs) cs
unfolding by_created_at
by_created_at-perm [] = Perm.refl _
by_created_at-perm (c ∷ cs) =
    Perm.trans (newest_first-perm c (by_created_at cs)) (Perm.cons c (by_created_at-perm cs))

by_created_at-IsNewestFirst : (cs : List Connection) → IsNewestFirst (by_created_at cs)
unfolding by_created_at
by_created_at-IsNewestFirst [] = tt
by_created_at-IsNewestFirst (c ∷ cs) =
    newest_first-IsNewestFirst c (by_created_at cs) (by_created_at-IsNewestFirst cs)

-- The list holds the connections of the account, each as often as the table does and no others, and
-- none stands after an older one.
pub list_connections_lem :
    (db : Db) (account_id : ℕ)
    → Perm
        (list_connections db account_id)
        (filter (λ (c : Connection). c.account_id == account_id) db.connections)
      × IsNewestFirst (list_connections db account_id)
unfolding list_connections
list_connections_lem db account_id =
    let own = filter (λ (c : Connection). c.account_id == account_id) db.connections in
    (by_created_at-perm own, by_created_at-IsNewestFirst own)
