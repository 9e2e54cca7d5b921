-- ===== src/Connectors/Registry.antt =====
-- registry.py. A pair of classes is a pair of names; `make_config` is `config_cls(**kwargs)`, whose
-- checks are pydantic's.
pub mod Closure
use turbocat.Prelude.{String, none, some, List, [], ◌∷◌, Result, ok, err, Exc, key_error, ◌>>=◌}
use turbocat.Python.Dict.{Dict, get?, keys}
use turbocat.Python.Value.{Value}
use turbocat.Connectors.Base.Schema.{TableSchema}

pub data ConnectorClass : Type 0 where
  razorpay_orders_connector razorpay_customers_connector kapture_tickets_connector : ConnectorClass

pub data ConfigClass : Type 0 where
  razorpay_source_config kapture_source_config : ConfigClass

abbrev pub registry : Dict (ConnectorClass × ConfigClass)
registry =
    ("razorpay_orders", (razorpay_orders_connector, razorpay_source_config))
    ∷ ("razorpay_customers", (razorpay_customers_connector, razorpay_source_config))
    ∷ ("kapture_tickets", (kapture_tickets_connector, kapture_source_config))
    ∷ []

abbrev pub source_registry : Dict (ConnectorClass × ConfigClass)
source_registry =
    ("razorpay", (razorpay_orders_connector, razorpay_source_config))
    ∷ ("kapture", (kapture_tickets_connector, kapture_source_config))
    ∷ []

abbrev pub source_connectors : Dict (List String)
source_connectors =
    ("razorpay", "razorpay_orders" ∷ "razorpay_customers" ∷ [])
    ∷ ("kapture", "kapture_tickets" ∷ [])
    ∷ []

-- The text of the KeyError names what was asked for; the list of what there is is left out.
abbrev pub unknown : String → Exc
unknown name = record { kind = key_error; text = name }

unfoldable pub lookup : String → Result (ConnectorClass × ConfigClass)
lookup name = elim (get? name registry) [ none ↦ err (unknown name) | some entry ↦ ok entry ]

unfoldable pub list_connectors : List String
list_connectors = keys registry

unfoldable pub list_sources : List String
list_sources = keys source_registry

module _ {Config Connector : Type 0} (make_config : ConfigClass → Dict Value → Result Config)
    (make_connector : ConnectorClass → Config → Result Connector) where
  -- `config_cls()` reads the environment: no keyword is given.
  unfoldable pub build : String → Result Connector
  build name = do
    entry ← lookup name
    config ← make_config entry.1 []
    make_connector entry.0 config

  unfoldable pub build_from_credentials : String → Dict Value → Result Connector
  build_from_credentials source credentials = elim (get? source source_registry) [
    | none ↦ err (unknown source)
    | some (connector_cls, config_cls) ↦ do
      config ← make_config config_cls credentials
      make_connector connector_cls config
  ]

  module _ (get_schema : Connector → TableSchema) where
    unfoldable pub schemas_of : List String → Dict Value → Result (List (String × String))
    unfolding lookup
    schemas_of [] credentials = ok []
    schemas_of (name ∷ names) credentials = do
      entry ← lookup name
      config ← make_config entry.1 credentials
      connector ← make_connector entry.0 config
      rest ← schemas_of names credentials
      ok ((name, (get_schema connector).table_name) ∷ rest)

    -- The pairs of connector and table name.
    unfoldable pub get_schemas_for_source : String → Dict Value → Result (List (String × String))
    unfolding schemas_of
    get_schemas_for_source source credentials = elim (get? source source_connectors) [
      | none ↦ err (unknown source)
      | some names ↦ schemas_of names credentials
    ]
