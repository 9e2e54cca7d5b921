-- ===== src/Connectors/Registry/Closure.antt =====
-- The tables of registry.py fit together.
use turbocat.Prelude.{
  String, ◌≡◌, refl, sym, ap, ◌∙◌, some, List, [], ◌∷◌, map, Result, ok, All, str_eq, arith,
  Bool-cases, inl, inr,
}
use turbocat.Python.Dict.{Dict, get?}
use turbocat.Python.Value.{Value}
use turbocat.Connectors.Base.Schema.{TableSchema}
use turbocat.Connectors.Registry.{
  ConnectorClass, ConfigClass, razorpay_orders_connector, razorpay_customers_connector,
  kapture_tickets_connector, razorpay_source_config, kapture_source_config, source_registry,
  source_connectors, lookup, schemas_of, get_schemas_for_source,
}

abbrev entry : ConnectorClass → ConfigClass → ConnectorClass × ConfigClass
entry cls config_cls = (cls, config_cls)

-- The name is a connector's that takes the configuration.
abbrev Takes : ConfigClass → String → Type 0
Takes config_cls name = (cls : ConnectorClass) × (lookup name ≡ ok (cls, config_cls))

source_connectors-Takes :
    (source : String) (cls : ConnectorClass) (config_cls : ConfigClass)
    → get? source source_registry ≡ some (cls, config_cls)
    → (names : List String) × (get? source source_connectors ≡ some names)
      × All (Takes config_cls) names
unfolding get? lookup
source_connectors-Takes source cls config_cls h = elim (Bool-cases (str_eq "razorpay" source)) [
  | inl here ↦
      let same : some (entry razorpay_orders_connector razorpay_source_config)
          ≡ some (entry cls config_cls) =
        ground (arith, here, h) in
      let e : razorpay_source_config ≡ config_cls = cc in
      (
        "razorpay_orders" ∷ "razorpay_customers" ∷ [],
        rw here refl,
        (
          (razorpay_orders_connector, ap (λ c. ok (razorpay_orders_connector, c)) e),
          ((razorpay_customers_connector, ap (λ c. ok (razorpay_customers_connector, c)) e), tt),
        ),
      )
  | inr other ↦ elim (Bool-cases (str_eq "kapture" source)) [
    | inl here ↦
        let same : some (entry kapture_tickets_connector kapture_source_config)
            ≡ some (entry cls config_cls) =
          ground (arith, other, here, h) in
        let e : kapture_source_config ≡ config_cls = cc in
        (
          "kapture_tickets" ∷ [],
          rw (other, here) refl,
          ((kapture_tickets_connector, ap (λ c. ok (kapture_tickets_connector, c)) e), tt),
        )
    | inr none_left ↦ absurd (ground (arith, other, none_left, h))
  ]
]

module _ {Config Connector : Type 0} (make_config : ConfigClass → Dict Value → Result Config)
    (make_connector : ConnectorClass → Config → Result Connector)
    (get_schema : Connector → TableSchema) where
  schemas_of-Takes :
      (config_cls : ConfigClass) (config : Config) (credentials : Dict Value)
      → make_config config_cls credentials ≡ ok config
      → ((cls : ConnectorClass)
          → (connector : Connector) × (make_connector cls config ≡ ok connector))
      → (names : List String) → All (Takes config_cls) names
      → (entries : List (String × String)) × (schemas_of make_config make_connector get_schema names
            credentials
          ≡ ok entries)
        × (map (λ e. e.0) entries ≡ names)
  unfolding schemas_of
  schemas_of-Takes config_cls config credentials made builds [] takes = ([], refl, refl)
  schemas_of-Takes config_cls config credentials made builds (name ∷ names) takes =
      let (cls, found) = takes.0 in
      let (connector, built) = builds cls in
      let (entries, rest, named) =
        schemas_of-Takes config_cls config credentials made builds names takes.1 in
      (
        (name, (get_schema connector).table_name) ∷ entries,
        rw (found, made, built, rest) refl,
        ap (λ l. name ∷ l) named,
      )

  -- Where the configuration of a source takes the credentials, as in the test of a connection, and the
  -- connectors can be made from it: the schema of the source is given, with one entry for each of its
  -- connectors.
  pub get_schemas_for_source_total :
      (source : String) (cls : ConnectorClass) (config_cls : ConfigClass) (config : Config)
      (credentials : Dict Value)
      → get? source source_registry ≡ some (cls, config_cls)
      → make_config config_cls credentials ≡ ok config
      → ((cls : ConnectorClass)
          → (connector : Connector) × (make_connector cls config ≡ ok connector))
      → (entries : List (String × String)) × (get_schemas_for_source make_config make_connector
            get_schema source credentials
          ≡ ok entries)
        × (get? source source_connectors ≡ some (map (λ e. e.0) entries))
  unfolding get_schemas_for_source
  get_schemas_for_source_total source cls config_cls config credentials known made builds =
      let (names, listed, takes) = source_connectors-Takes source cls config_cls known in
      let (entries, given, named) =
        schemas_of-Takes config_cls config credentials made builds names takes in
      (entries, rw (listed, get_schemas_for_source) given, listed ∙ ap some (sym named))
