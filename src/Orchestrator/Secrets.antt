-- ===== src/Orchestrator/Secrets.antt =====
-- secrets.py. Secrets Manager and the JSON of a dict of texts are parameters; what is asked of them
-- is `Lawful`.
pub mod RoundTrip
use turbocat.Prelude.{
  String, Bool, true, false, ◌≡◌, ◌≢◌, Option, none, some, Result, ok, err, Exc, runtime_error,
  handle, str_eq, if◌then◌else◌,
}
use turbocat.Prelude.Exec.{Exec}
use turbocat.Python.Dict.{Dict}

-- boto3's client, with the classes of its exceptions as tests, and `json`.
pub record Manager (C : Type 0) : Type 0 where
  pub put_secret_value : String → String → Exec C (Unit {0})
  pub create_secret : String → String → Exec C (Unit {0})
  pub get_secret_value : String → Exec C (Option String)
  pub is_not_found : Exc → Bool
  pub is_client_error : Exc → Bool
  pub dumps : Dict String → String
  pub loads : String → Result (Dict String)

abbrev pub failure : String → Exc
failure text = record { kind = runtime_error; text = text }

module _ {C : Type 0} (manager : Manager C) where
  open manager use {
    put_secret_value, create_secret, get_secret_value, is_not_found, is_client_error, dumps, loads,
  }

  -- except ClientError as e: raise RuntimeError(…) from e
  unfoldable pub wrap {ℓ} : {A : Type ℓ} → String → Result A → Result A
  wrap text (err e) = if is_client_error e then err (failure text) else err e
  wrap text (ok a) = ok a

  unfoldable pub put_secret : String → Dict String → Exec C (Unit {0})
  unfolding wrap
  put_secret secret_ref credentials c =
      let (outcome, c') = put_secret_value secret_ref (dumps credentials) c in
      let (created, c'') = create_secret secret_ref (dumps credentials) c' in
      handle outcome
        (λ e.
          if is_not_found e
          then (wrap "Failed to save secret" created, c'')
          else (wrap "Failed to save secret" (err e), c'))
        (λ _. (ok tt, c'))

  unfoldable pub secret_of : Option String → Result (Dict String)
  secret_of none = err (failure "no SecretString value")
  secret_of (some s) = if str_eq s "" then err (failure "no SecretString value") else loads s

  unfoldable pub get_secret : String → Exec C (Dict String)
  unfolding wrap secret_of
  get_secret secret_ref c =
      let (response, c') = get_secret_value secret_ref c in
      handle (wrap "Failed to fetch secret" response) (λ e. (err e, c')) (λ s. (secret_of s, c'))

-- What is documented: a value that was put or created is the one that is read next.
pub record Lawful {C : Type 0} (manager : Manager C) : Type 0 where
  pub get-put :
      (ref s : String) (c : C)
      → (manager.put_secret_value ref s c).0 ≡ ok tt
      → (manager.get_secret_value ref (manager.put_secret_value ref s c).1).0 ≡ ok (some s)
  pub get-create :
      (ref s : String) (c : C)
      → (manager.create_secret ref s c).0 ≡ ok tt
      → (manager.get_secret_value ref (manager.create_secret ref s c).1).0 ≡ ok (some s)

-- What JSON does with the credentials: the text is not empty, and reads back as what was written.
pub record IsJson {C : Type 0} (manager : Manager C) (d : Dict String) : Type 0 where
  pub loads-dumps : manager.loads (manager.dumps d) ≡ ok d
  pub full : str_eq (manager.dumps d) "" ≡ false
