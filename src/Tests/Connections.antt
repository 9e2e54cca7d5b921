-- ===== src/Tests/Connections.antt =====
-- Secrets and connections over a Secrets Manager that is a function from names.
use turbocat.Prelude.{
  ℕ, String, true, ◌≡◌, refl, ap, eq_refl, Option, none, some, [], ◌∷◌, Result, ok, err, Exc, Kind,
  arith, ◌==◌, str_eq, if◌then◌else◌,
}
use turbocat.Prelude.Exec.{Exec}
use turbocat.Python.Dict.{Dict, get?}
use turbocat.Python.Value.{Value}
use turbocat.Connectors.Registry.{ConnectorClass, ConfigClass, build_from_credentials}
use turbocat.Orchestrator.Secrets.{Manager, IsJson, put_secret, get_secret}
use turbocat.Orchestrator.Secrets as Secrets
use turbocat.Orchestrator.Secrets.RoundTrip.{get_secret-put_secret}
use turbocat.Orchestrator.Connections.{CreateConnectionRequest, create_connection, secret_ref_of}
use turbocat.Orchestrator.Connections.Routes.{create_connection_secret}
use turbocat.Tests.Fixtures.{now}
use turbocat.Tests.Control.{connection, db}

abbrev uuid_text : ℕ → String
uuid_text n = if n == 5 then "5" else "other"

-- A Secrets Manager that is a function from names.
abbrev pub Vault : Type 0
Vault = String → Option String

abbrev missing : Exc
missing = record { kind = Kind.foreign; text = "ResourceNotFoundException" }

abbrev update_if : Option String → String → String → Exec Vault (Unit {0})
update_if none ref s c = (err missing, c)
update_if (some old) ref s c = (ok tt, λ k. if str_eq ref k then some s else c k)

abbrev keys_text : Dict String
keys_text = ("api_key", "k") ∷ []

abbrev pub manager : Manager Vault
manager = record {
  put_secret_value = λ ref s c. update_if (c ref) ref s c;
  create_secret = λ ref s c. (ok tt, λ k. if str_eq ref k then some s else c k);
  get_secret_value = λ ref c. (ok (c ref), c);
  is_not_found = λ e. str_eq e.text "ResourceNotFoundException";
  is_client_error = λ e. true;
  dumps = λ d. "{api_key: k}";
  loads = λ s. ok keys_text;
}

written :
    (ref s : String) (c : Vault) (old : Option String)
    → (update_if old ref s c).0 ≡ ok tt
    → (update_if old ref s c).1 ref ≡ some s
written ref s c none h = ground arith
written ref s c (some old) h = ground (arith, eq_refl ref)

manager-Lawful : Secrets.Lawful manager
manager-Lawful = record {
  get-put = λ ref s c h. ap ok (written ref s c (c ref) h);
  get-create = λ ref s c h. ap ok (ground (arith, eq_refl ref));
}

json : IsJson manager keys_text
json = record { loads-dumps = refl; full = refl }

abbrev pub no_secrets : Vault
no_secrets k = none

get_secret-put_secret_example :
    (get_secret manager "orchestrator/1/razorpay"
      (put_secret manager "orchestrator/1/razorpay" keys_text no_secrets).1).0
    ≡ ok keys_text
unfolding put_secret
get_secret-put_secret_example =
    get_secret-put_secret manager manager-Lawful "orchestrator/1/razorpay" keys_text no_secrets json
      refl

abbrev pub make_config : ConfigClass → Dict Value → Result (Dict Value)
make_config cls d = ok d

abbrev pub make_connector : ConnectorClass → Dict Value → Result (Dict Value)
make_connector cls config = ok config

abbrev pub passes : Dict Value → Result (Unit {0})
passes connector = ok tt

abbrev body_for : String → CreateConnectionRequest
body_for source = record { name = "production"; source = source; credentials = keys_text }

create_connection_secret_example :
    (get_secret manager "orchestrator/5/razorpay"
      (create_connection make_config make_connector passes manager uuid_text 9 now
        (body_for "razorpay")
        5
        (db, no_secrets)).1.1).0
    ≡ ok keys_text
unfolding create_connection secret_ref_of put_secret build_from_credentials get?
create_connection_secret_example =
    create_connection_secret make_config make_connector passes manager uuid_text manager-Lawful 9
      now 5 (body_for "razorpay") db no_secrets
      (record connection { secret_ref = "orchestrator/5/razorpay" }) json refl refl
