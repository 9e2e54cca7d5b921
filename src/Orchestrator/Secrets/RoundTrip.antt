-- ===== src/Orchestrator/Secrets/RoundTrip.antt =====
-- What `put_secret` saves, `get_secret` gives back.
use turbocat.Prelude.{String, true, ◌≡◌, some, ok, arith, is_ok, Result-cases, Bool-cases, inl, inr}
use turbocat.Python.Dict.{Dict}
use turbocat.Orchestrator.Secrets.{Manager, Lawful, IsJson, put_secret, get_secret, secret_of, wrap}

module _ {C : Type 0} (manager : Manager C) (lawful : Lawful manager) where
  stored :
      (ref : String) (d : Dict String) (c : C) (json : IsJson manager d)
      → (manager.get_secret_value ref c).0 ≡ ok (some (manager.dumps d))
      → (get_secret manager ref c).0 ≡ ok d
  unfolding get_secret secret_of wrap
  stored ref d c json h = rw (h, get_secret) (ground (arith, json.full, json.loads-dumps))

  -- Over a lawful Secrets Manager, with credentials that JSON writes and reads back: if `put_secret` returns, whether the secret was there before or had
  -- to be created, the next `get_secret` of that name returns the credentials that were put.
  pub get_secret-put_secret :
      (ref : String) (d : Dict String) (c : C) (json : IsJson manager d)
      → is_ok (put_secret manager ref d c).0 ≡ true
      → (get_secret manager ref (put_secret manager ref d c).1).0 ≡ ok d
  unfolding put_secret wrap
  get_secret-put_secret ref d c json h =
      elim (Result-cases (manager.put_secret_value ref (manager.dumps d) c).0) [
        | inl (_, put) ↦
            rw (put, put_secret) (stored ref d _ json (lawful.get-put ref (manager.dumps d) c put))
        | inr (e, failed) ↦ elim (Bool-cases (manager.is_not_found e)) [
          | inr other ↦ absurd (ground arith)
          | inl missing ↦
              let c' = (manager.put_secret_value ref (manager.dumps d) c).1 in
              elim (Result-cases (manager.create_secret ref (manager.dumps d) c').0) [
                | inr (e', refused) ↦ absurd (ground arith)
                | inl (_, created) ↦
                    rw (failed, put_secret, missing)
                      (stored ref d _ json (lawful.get-create ref (manager.dumps d) c' created))
              ]
        ]
      ]
