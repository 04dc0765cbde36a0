-- ===== src/Tests/Routes.antt =====
-- Examples for the execute path.
use integration_efi.Mtls.{load_tls_config, source_of}
use integration_efi.Api.Confidential.{
  read_provider_response, safe_confidential_error, success_status, too_large,
}
use integration_efi.Session.{new_efi_client, config_from_request, load}
use integration_efi.Base.{◌≡◌, ◌⊎◌, refl, String, true, [], err, trim_space}
use integration_efi.Value.{end, text_at, value_at}
use integration_efi.Api.{plain, sentinel, mutation_accepted, as_api, is_sentinel}
use integration_efi.Routing.{
  ExecuteRequest, Others, supports_execute_capability, execute_with_context, execute_operation,
  legacy_operation, masked, normalize_execute_operation,
}
use integration_efi.Routing.Served.{execute_with_context-masked}
use integration_efi.Tests.{missing, secret}
use integration_efi.Tests.Readiness.{tools, network, loader}
use integration_efi.Tests.Signatures.{certificates}

abbrev pub no_others : Others
no_others = record {
  loader = loader;
  certificates = certificates;
  core_url = "";
  event_token = "";
  readiness_tools = tools;
  network = network;
}

abbrev pub request : ExecuteRequest
request = record {
  operation = " get_statement ";
  capability = "";
  input = end;
  credentials = end;
  instance_config = end;
  instance_name = "main";
  metadata = end;
}

statement_admitted : supports_execute_capability " get_statement " ≡ true
unfolding supports_execute_capability trim_space legacy_operation
statement_admitted = refl

statement_named : trim_space " get_statement " ≡ "get_statement"
unfolding trim_space
statement_named = refl

abbrev no_environment : String → String
no_environment k = ""

refused :
    (execute_with_context missing "main" no_others secret no_environment request []).0
    ≡ err (plain "efi: confidential provider operation failed")
unfolding execute_with_context execute_operation normalize_execute_operation trim_space
    new_efi_client safe_confidential_error read_provider_response too_large success_status masked
    is_sentinel as_api load_tls_config config_from_request value_at load source_of text_at
refused = refl

execute_with_context-masked_example :
    (plain "efi: confidential provider operation failed" ≡ sentinel mutation_accepted)
    ⊎ (plain "efi: confidential provider operation failed"
        ≡ plain "efi: confidential provider operation failed")
execute_with_context-masked_example =
    execute_with_context-masked missing "main" no_others secret no_environment request []
      (plain "efi: confidential provider operation failed") refl refused
