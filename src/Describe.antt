-- ===== src/Describe.antt =====
-- Describe of providers/efi/adapter/spec.go: the manifest that the adapter advertises.
pub mod Schemas
pub mod Catalog
pub mod Advertised
pub mod Handler
pub mod Handshake
use integration_efi.Base.{pos, String, false, [], ◌∷◌, ◌==◌, ◌||◌, if◌then◌else◌, trim_space}
use integration_efi.World.{World}
use integration_efi.Manifest.{
  AdapterSpec, DescribeResponse, no_route, no_queue, no_discovery, no_normalization, no_extensions,
}
use Schemas.{credential_schema, instance_schema}
use Catalog.{resource_types, action_catalog, idempotent_actions}

-- AdapterVersion
abbrev pub adapter_version : String
adapter_version = "2.5.7"

-- The switch on the transport.
unfoldable pub spec_for : String → AdapterSpec
spec_for transport =
    if transport == "amqp" || transport == "rabbitmq"
    then record {
      transport = "rabbitmq";
      version = adapter_version;
      queues = record no_queue {
        describe = "yggdrasil.adapter.efi.describe";
        execute = "yggdrasil.adapter.efi.execute";
      };
      endpoints = no_route;
      timeout_seconds = pos 30;
    }
    else record {
      transport = "http_json";
      version = adapter_version;
      queues = no_queue;
      endpoints = record { describe = "/rpc/describe"; execute = "/rpc/execute" };
      timeout_seconds = pos 30;
    }

module _ (w : World) (env : String → String) where
  -- YGGDRASIL_TRANSPORT, as Describe reads it
  unfoldable pub described_transport : String
  described_transport =
      let t = w.to_lower (trim_space (env "YGGDRASIL_TRANSPORT")) in if t == "" then "http" else t

  -- adapterSpec
  unfoldable pub adapter_spec : AdapterSpec
  unfolding described_transport spec_for
  adapter_spec = spec_for described_transport

  -- Describe
  unfoldable pub describe : DescribeResponse
  describe = record {
    provider = "efi";
    adapter = adapter_spec;
    capabilities = "describe" ∷ "execute" ∷ [];
    credential_schema = credential_schema;
    instance_schema = instance_schema;
    resource_types = resource_types;
    action_catalog = action_catalog;
    discovery = record no_discovery { mode = "push"; cursor = "none" };
    normalization = record no_normalization {
      external_id_path = "txid";
      fallback_resource_prefix = "thirdparty.efi.custom";
    };
    execution = record { supports_dry_run = false; idempotent_actions = idempotent_actions };
    extensions = record no_extensions { allow_custom_actions = false };
  }
