-- ===== src/Describe/Schemas.antt =====
-- providers/efi/adapter/spec.go: the schemas of the credentials and of an instance's configuration.
use integration_efi.Base.{pos, true, false, some, [], ◌∷◌}
use integration_efi.Value.{string, bool, int}
use integration_efi.Manifest.{SchemaSpec, no_property, no_schema}

-- CredentialSchema
unfoldable pub credential_schema : SchemaSpec
credential_schema = record no_schema {
  mode = "inline";
  required = ("efi_client_key_id" ∷ "efi_client_secret" ∷ []);
  properties =
      ((
        "efi_client_key_id",
        record no_property {
          type = "string";
          description = "EFI Pix API client key ID.";
          label = "EFI client key ID";
          label_locale = (("pt-BR", "Client Key ID EFI") ∷ ("en-US", "EFI client key ID") ∷ []);
          placeholder = "Client_Id_xxxxxxxxxxxx";
          placeholder_locale =
              (("pt-BR", "Client_Id_xxxxxxxxxxxx") ∷ ("en-US", "Client_Id_xxxxxxxxxxxx") ∷ []);
          description_locale =
              ((
                "pt-BR",
                "Client key ID da EFI Pix. Encontre em EFI Pix dashboard → Configurações → Credenciais API.",
              )
                ∷ (
                  "en-US",
                  "EFI Pix client key ID. Find it in EFI Pix dashboard → Settings → API Credentials.",
                )
                ∷ []);
          group = "EFI API credentials";
          group_locale =
              (("pt-BR", "Credenciais da API EFI") ∷ ("en-US", "EFI API credentials") ∷ []);
          order = pos 1;
          sensitive = true;
        },
      )
        ∷ (
          "efi_client_secret",
          record no_property {
            type = "string";
            description = "EFI Pix API client secret.";
            secret = true;
            label = "EFI client secret";
            label_locale = (("pt-BR", "Client secret EFI") ∷ ("en-US", "EFI client secret") ∷ []);
            placeholder = "Client_Secret_xxxxxxxxxxxx";
            description_locale =
                (("pt-BR", "Client secret da EFI Pix. Par com o client key ID.")
                  ∷ ("en-US", "EFI Pix client secret. Paired with the client key ID.")
                  ∷ []);
            group = "EFI API credentials";
            group_locale =
                (("pt-BR", "Credenciais da API EFI") ∷ ("en-US", "EFI API credentials") ∷ []);
            order = pos 2;
            sensitive = true;
          },
        )
        ∷ (
          "efi_certificate_base64",
          record no_property {
            type = "string";
            description =
                "Base64-encoded P12 mTLS certificate bytes (alternative to mounting EFI_CERTIFICATE file).";
            secret = true;
            label = "P12 mTLS certificate (base64)";
            label_locale =
                (("pt-BR", "Certificado mTLS P12 (base64)")
                  ∷ ("en-US", "P12 mTLS certificate (base64)")
                  ∷ []);
            placeholder = "Cole o P12 em base64 (alternativa ao arquivo EFI_CERTIFICATE)";
            placeholder_locale =
                (("pt-BR", "Cole o P12 em base64")
                  ∷ ("en-US", "Paste base64-encoded P12 here")
                  ∷ []);
            description_locale =
                ((
                  "pt-BR",
                  "Certificado P12 mTLS codificado em base64. Alternativa a montar o arquivo via EFI_CERTIFICATE. EFI exige mTLS para chamadas Pix. Rotação: pod restart via secret-rotate workflow.",
                )
                  ∷ (
                    "en-US",
                    "Base64-encoded P12 mTLS certificate. Alternative to mounting an EFI_CERTIFICATE file. EFI requires mTLS for Pix calls. Rotation: pod restart via secret-rotate workflow.",
                  )
                  ∷ []);
            group = "mTLS";
            group_locale = (("pt-BR", "mTLS") ∷ ("en-US", "mTLS") ∷ []);
            order = pos 3;
            sensitive = true;
            depends_on = some (record { field = "mtls_enabled"; value = bool true });
          },
        )
        ∷ []);
}

-- InstanceSchema
unfoldable pub instance_schema : SchemaSpec
instance_schema = record no_schema {
  mode = "inline";
  properties =
      ((
        "base_url",
        record no_property {
          type = "string";
          description =
              "EFI Pix API base URL (pix.api.efipay.com.br or pix-h.api.efipay.com.br for homologation).";
          default = string "https://pix.api.efipay.com.br";
          label = "EFI Pix base URL";
          label_locale = (("pt-BR", "URL base da EFI Pix") ∷ ("en-US", "EFI Pix base URL") ∷ []);
          placeholder = "https://pix.api.efipay.com.br";
          description_locale =
              (("pt-BR", "URL base da API EFI Pix. Use pix-h.api.efipay.com.br em homologação.")
                ∷ ("en-US", "EFI Pix API base URL. Use pix-h.api.efipay.com.br for homologation.")
                ∷ []);
          group = "Endpoints";
          group_locale = (("pt-BR", "Endpoints") ∷ ("en-US", "Endpoints") ∷ []);
          order = pos 1;
          format = "uri";
        },
      )
        ∷ (
          "sandbox",
          record no_property {
            type = "boolean";
            description = "Whether this instance points at EFI homologation (pix-h).";
            default = bool false;
            label = "Sandbox / homologation";
            label_locale =
                (("pt-BR", "Sandbox / homologação") ∷ ("en-US", "Sandbox / homologation") ∷ []);
            description_locale =
                (("pt-BR", "Marque quando apontar para o ambiente de homologação da EFI (pix-h).")
                  ∷ ("en-US", "Enable when pointing at EFI homologation (pix-h).")
                  ∷ []);
            group = "Endpoints";
            group_locale = (("pt-BR", "Endpoints") ∷ ("en-US", "Endpoints") ∷ []);
            order = pos 2;
          },
        )
        ∷ (
          "mtls_enabled",
          record no_property {
            type = "boolean";
            description =
                "Whether mTLS is enforced for outbound EFI calls. Disable only for mock/test instances.";
            default = bool true;
            label = "Enable mTLS";
            label_locale = (("pt-BR", "Habilitar mTLS") ∷ ("en-US", "Enable mTLS") ∷ []);
            description_locale =
                (("pt-BR", "mTLS bidirecional. Desabilite apenas para instâncias mock/teste.")
                  ∷ ("en-US", "Bidirectional mTLS. Disable only for mock/test instances.")
                  ∷ []);
            group = "mTLS";
            group_locale = (("pt-BR", "mTLS") ∷ ("en-US", "mTLS") ∷ []);
            order = pos 3;
          },
        )
        ∷ (
          "webhook_port",
          record no_property {
            type = "integer";
            description =
                "Deprecated and ignored since 2.5.1: the adapter runs no inbound webhook listener. Kept so existing instance configs stay valid.";
            default = int (pos 9079);
            label = "Webhook listener port";
            label_locale =
                (("pt-BR", "Porta do listener de webhook")
                  ∷ ("en-US", "Webhook listener port")
                  ∷ []);
            description_locale =
                ((
                  "pt-BR",
                  "Obsoleto e ignorado desde a 2.5.1: o adapter não escuta webhooks da EFI.",
                )
                  ∷ (
                    "en-US",
                    "Deprecated and ignored since 2.5.1: the adapter does not listen for EFI webhooks.",
                  )
                  ∷ []);
            group = "Webhook";
            group_locale = (("pt-BR", "Webhook") ∷ ("en-US", "Webhook") ∷ []);
            order = pos 4;
          },
        )
        ∷ (
          "webhook_receiver_url",
          record no_property {
            type = "string";
            description =
                "Fixed HTTPS receiver URL inspected by observe_automatic_webhook_readiness. Capability input can never override this destination.";
            label = "Webhook receiver URL";
            label_locale =
                (("pt-BR", "URL do receptor de webhook") ∷ ("en-US", "Webhook receiver URL") ∷ []);
            description_locale =
                ((
                  "pt-BR",
                  "URL HTTPS fixa do receptor. O preflight compara o DNS e comprova a recusa sem certificado; a identidade da Efí só é observada quando ela processa o PUT de registro.",
                )
                  ∷ (
                    "en-US",
                    "Fixed HTTPS receiver URL. The preflight compares DNS and proves clientless refusal; EFI's identity is observed only when it processes the registration PUT.",
                  )
                  ∷ []);
            group = "Webhook";
            group_locale = (("pt-BR", "Webhook") ∷ ("en-US", "Webhook") ∷ []);
            order = pos 5;
            format = "uri";
          },
        )
        ∷ []);
}
