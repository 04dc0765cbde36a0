-- ===== src/Manifest.antt =====
-- family/contract/types.go: the manifest that the adapter describes itself by, and the request for it.
use integration_efi.Base.{ℤ, pos, String, Bool, false, Option, none, List, []}
use integration_efi.Value.{Value, null}

-- AdapterDescribeRequest
pub record DescribeRequest : Type 0 where
  pub provider : String
  pub expected_version : String

-- IntegrationAdapterRoute
pub record AdapterRoute : Type 0 where
  pub describe : String
  pub execute : String

-- IntegrationAdapterQueue
pub record AdapterQueue : Type 0 where
  pub describe : String
  pub discover : String
  pub read : String
  pub execute : String
  pub sync : String
  pub health : String

-- IntegrationAdapterSpec
pub record AdapterSpec : Type 0 where
  pub transport : String
  pub version : String
  pub queues : AdapterQueue
  pub endpoints : AdapterRoute
  pub timeout_seconds : ℤ

-- IntegrationSchemaDependency
pub record SchemaDependency : Type 0 where
  pub field : String
  pub value : Value

-- IntegrationSchemaProperty
pub record SchemaProperty : Type 0 where
  pub type : String
  pub description : String
  pub secret : Bool
  pub enum : List Value
  pub default : Value
  pub label : String
  pub label_locale : List (String × String)
  pub placeholder : String
  pub placeholder_locale : List (String × String)
  pub description_locale : List (String × String)
  pub group : String
  pub group_locale : List (String × String)
  pub order : ℤ
  pub sensitive : Bool
  pub depends_on : Option SchemaDependency
  pub format : String

-- IntegrationSchemaSpec
pub record SchemaSpec : Type 0 where
  pub mode : String
  pub required : List String
  pub properties : List (String × SchemaProperty)

-- IntegrationResourceType
pub record ResourceType : Type 0 where
  pub name : String
  pub canonical_prefix : String
  pub identity_template : String
  pub discoverable : Bool
  pub default_actions : List String

-- IntegrationActionDefinition
pub record ActionDefinition : Type 0 where
  pub name : String
  pub description : String
  pub resource_types : List String
  pub idempotent : Bool
  pub category : String

-- IntegrationDiscoverySpec
pub record DiscoverySpec : Type 0 where
  pub mode : String
  pub cursor : String
  pub supports_webhooks : Bool

-- IntegrationNormalizationSpec
pub record NormalizationSpec : Type 0 where
  pub external_id_path : String
  pub name_path : String
  pub owner_path : String
  pub fallback_resource_prefix : String

-- IntegrationExecutionSpec
pub record ExecutionSpec : Type 0 where
  pub supports_dry_run : Bool
  pub idempotent_actions : List String

-- IntegrationExtensionsSpec
pub record ExtensionsSpec : Type 0 where
  pub allow_custom_resource_types : Bool
  pub allow_custom_actions : Bool
  pub preserve_raw_payload : Bool

-- AdapterDescribeResponse
pub record DescribeResponse : Type 0 where
  pub provider : String
  pub adapter : AdapterSpec
  pub capabilities : List String
  pub credential_schema : SchemaSpec
  pub instance_schema : SchemaSpec
  pub resource_types : List ResourceType
  pub action_catalog : List ActionDefinition
  pub discovery : DiscoverySpec
  pub normalization : NormalizationSpec
  pub execution : ExecutionSpec
  pub extensions : ExtensionsSpec

-- The zero values, for literals that leave fields out.
abbrev pub no_route : AdapterRoute
no_route = record { describe = ""; execute = "" }

abbrev pub no_queue : AdapterQueue
no_queue = record { describe = ""; discover = ""; read = ""; execute = ""; sync = ""; health = "" }

abbrev pub no_property : SchemaProperty
no_property = record {
  type = "";
  description = "";
  secret = false;
  enum = [];
  default = null;
  label = "";
  label_locale = [];
  placeholder = "";
  placeholder_locale = [];
  description_locale = [];
  group = "";
  group_locale = [];
  order = pos 0;
  sensitive = false;
  depends_on = none;
  format = "";
}

abbrev pub no_schema : SchemaSpec
no_schema = record { mode = ""; required = []; properties = [] }

abbrev pub no_discovery : DiscoverySpec
no_discovery = record { mode = ""; cursor = ""; supports_webhooks = false }

abbrev pub no_normalization : NormalizationSpec
no_normalization = record {
  external_id_path = "";
  name_path = "";
  owner_path = "";
  fallback_resource_prefix = "";
}

abbrev pub no_extensions : ExtensionsSpec
no_extensions = record {
  allow_custom_resource_types = false;
  allow_custom_actions = false;
  preserve_raw_payload = false;
}
