-- ===== src/Describe/Catalog.antt =====
-- providers/efi/adapter/spec.go: the resource types, the actions and which of them are idempotent.
use integration_efi.Base.{true, false, List, String, [], ◌∷◌}
use integration_efi.Manifest.{ResourceType, ActionDefinition}

-- ResourceTypes
unfoldable pub resource_types : List ResourceType
resource_types =
    (record {
      name = "charge";
      canonical_prefix = "thirdparty.efi.charge";
      identity_template = "charge.{txid}";
      discoverable = false;
      default_actions =
          ("ensure_charge" ∷ "ensure_due_charge" ∷ "observe_charges" ∷ "destroy_charge" ∷ []);
    }
      ∷ record {
        name = "pix_transaction";
        canonical_prefix = "thirdparty.efi.pix";
        identity_template = "pix.{e2eId}";
        discoverable = false;
        default_actions = ("refund_charge" ∷ "create_payout" ∷ "handle_chargeback" ∷ []);
      }
      ∷ record {
        name = "webhook_subscription";
        canonical_prefix = "thirdparty.efi.webhook_subscription";
        identity_template = "webhook_subscription.{chave}";
        discoverable = false;
        default_actions =
            ("ensure_webhook_subscription" ∷ "observe_webhook_subscriptions"
              ∷ "destroy_webhook_subscription" ∷ "verify_webhook_signature" ∷ "efi_webhook_received"
              ∷ []);
      }
      ∷ record {
        name = "automatic_webhook";
        canonical_prefix = "thirdparty.efi.automatic_webhook";
        identity_template = "automatic_webhook.{kind}";
        discoverable = false;
        default_actions =
            ("ensure_automatic_webhook" ∷ "observe_automatic_webhooks"
              ∷ "observe_automatic_webhook_readiness" ∷ []);
      }
      ∷ [])

-- ActionCatalog
unfoldable pub action_catalog : List ActionDefinition
action_catalog =
    (record {
      name = "ensure_charge";
      description =
          "Ensure an immediate Pix charge (cob) exists. POST /v2/cob (auto-generated txid) or PUT /v2/cob/{txid} when caller-supplied — repeat PUTs reconcile to the same charge identity, idempotent by txid.";
      resource_types = ("charge" ∷ []);
      idempotent = true;
      category = "capability";
    }
      ∷ record {
        name = "ensure_due_charge";
        description =
            "Ensure a due-date Pix charge (cobv) exists. PUT /v2/cobv/{txid}. Idempotent — caller-supplied txid is required (cobv is always upserted).";
        resource_types = ("charge" ∷ []);
        idempotent = true;
        category = "capability";
      }
      ∷ record {
        name = "observe_charges";
        description =
            "Observe Pix charges. Filter {txid: X} returns the single charge (GET /v2/cob/{txid}); filter {inicio, fim} returns a paged statement window (GET /v2/cob?inicio=&fim=&page=&page_size=). Read-only.";
        resource_types = ("charge" ∷ []);
        idempotent = true;
        category = "capability";
      }
      ∷ record {
        name = "destroy_charge";
        description =
            "Remove (cancel) a Pix charge by txid. PATCH /v2/cob/{txid} with status=REMOVIDA_PELO_USUARIO_RECEBEDOR per BCB Pix spec. 404 from EFI → already-absent success (idempotent).";
        resource_types = ("charge" ∷ []);
        idempotent = true;
        category = "capability";
      }
      ∷ record {
        name = "refund_charge";
        description = "Refund a Pix transaction. PUT /v2/pix/{e2eId}/devolucao/{id}.";
        resource_types = ("pix_transaction" ∷ []);
        idempotent = true;
        category = "capability";
      }
      ∷ record {
        name = "create_payout";
        description =
            "Send a Pix payout (envio). PUT /v3/gn/pix/{idEnvio}. IntermediateIrreversible — money movement.";
        resource_types = ("pix_transaction" ∷ []);
        idempotent = false;
        category = "capability";
      }
      ∷ record {
        name = "handle_chargeback";
        description =
            "Acknowledge an EFI chargeback. Pass-through, no HTTP call. Idempotent by chargeback_id.";
        resource_types = ("pix_transaction" ∷ []);
        idempotent = true;
        category = "capability";
      }
      ∷ record {
        name = "ensure_webhook_subscription";
        description =
            "Ensure a Pix webhook subscription exists. PUT /v2/webhook/{chave} (v3 fallback on 404). webhook_url is the HTTPS receiver base URL; EFI appends /pix to real deliveries. Idempotent: repeat calls reconcile URL/headers without creating duplicates. Optional confidential_input seals private parameters and complete results, proves a fresh complete LIST, then requires an actual setter with provider mTLS validation and exact readback even for canonical registrations; see docs/CONFIDENTIAL_WEBHOOKS.md.";
        resource_types = ("webhook_subscription" ∷ []);
        idempotent = true;
        category = "capability";
      }
      ∷ record {
        name = "observe_webhook_subscriptions";
        description =
            "Observe Pix webhook subscriptions. Filter {chave} returns one subscription; filter {inicio, fim[, page, page_size, cursor]} returns a windowed page from GET /v2/webhook. EFI requires a valid ordered RFC3339 inicio/fim range. Raw provider fields and compatible items/cursor are retained. LIST page_provenance validates the requested creation-time page; complete requires one authoritative page. URL query values are redacted from normal output. Optional confidential_input seals private parameters and complete legacy results while exposing only bounded page proof and invocation-scoped equality tags; see docs/CONFIDENTIAL_WEBHOOKS.md. Read-only.";
        resource_types = ("webhook_subscription" ∷ []);
        idempotent = true;
        category = "capability";
      }
      ∷ record {
        name = "destroy_webhook_subscription";
        description =
            "Remove a Pix webhook subscription. DELETE /v2/webhook/{chave}. 404 treated as already-absent success (idempotent).";
        resource_types = ("webhook_subscription" ∷ []);
        idempotent = true;
        category = "capability";
      }
      ∷ record {
        name = "verify_webhook_signature";
        description =
            "Verify a peer x509 cert from the inbound webhook handshake. Pure computation.";
        resource_types = ("webhook_subscription" ∷ []);
        idempotent = true;
        category = "capability";
      }
      ∷ record {
        name = "efi_webhook_received";
        description =
            "Reactor kept for contract compatibility: normalize an EFI Pix callback body. The adapter wires no event sink, so a non-empty pix array fails and an empty one returns emitted=false.";
        resource_types = ("webhook_subscription" ∷ []);
        idempotent = true;
        category = "reactor";
      }
      ∷ record {
        name = "on_surface_query";
        description =
            "Surface-driven read aggregator invoked by core's /api/v1/integrations/{instance_id}/surface-query proxy on behalf of the EFI/Pix finance-ops operator surface. Accepts { query_name, params }; routes by query_name to a read aggregator. Supported: list-webhook-subscriptions (webhook-health pillar; params {chave} OR {inicio,fim[,page,page_size,cursor]}; returns {chave,url,status,mtls}), list-charges (recent charges for reconciliation context; params {txid} OR {inicio,fim[,status]}; returns {txid,valor,status,tipo,created}), charge-detail (single-charge drill-down; param {txid} required; returns {txid,valor,status,tipo,created,expiracao,devolucoes:[{id,valor,status,created}]}). RULE #0: payer-identifying fields (devedor/nome/cpf/cnpj/email/payer pix key) and the pix legs' endToEndId are NEVER projected. Read-only; never mutates or moves money.";
        resource_types = ("webhook_subscription" ∷ []);
        idempotent = true;
        category = "reactor";
      }
      ∷ record {
        name = "ensure_automatic_webhook";
        description =
            "Ensure the Pix Automatico webhook of one kind points at webhook_url. kind=rec uses /v2/webhookrec (EFI delivers to <webhook_url>/rec); kind=cobr uses /v2/webhookcobr (EFI delivers to <webhook_url>/cobr). GET first, one PUT only when absent or different, then GET readback that must equal webhook_url exactly. No Pix key, no x-skip-mtls-checking, no retry, no destroy. webhook_url must be https without query, fragment, userinfo, trailing slash or a rec/cobr/pix last segment.";
        resource_types = ("automatic_webhook" ∷ []);
        idempotent = true;
        category = "capability";
      }
      ∷ record {
        name = "observe_automatic_webhooks";
        description =
            "Observe the Pix Automatico webhook of one kind (rec: GET /v2/webhookrec, cobr: GET /v2/webhookcobr). Returns {kind, endpoint, resource_id, registered, webhook_url, created_at}; absent is registered=false. Optional expected_webhook_url turns the read into an exact readback gate that fails on any difference or absence. URL query values are redacted from output. Read-only.";
        resource_types = ("automatic_webhook" ∷ []);
        idempotent = true;
        category = "capability";
      }
      ∷ record {
        name = "observe_automatic_webhook_readiness";
        description =
            "Read-only preflight for the configured automatic-webhook receiver. Proves EFI OAuth over mTLS without returning credentials or token; resolves its public host and an operator-observed load-balancer DNS name to identical address sets; proves an empty clientless HTTP request is refused by a required-client-certificate TLS alert and records the verified receiver server-certificate fingerprint on every resolved address; then asks Core to authorize efi.automatic_webhook.ensured and requires the reviewed principal, exact grant, count and canonical grant-set hash. Reports provider_authenticated_probe as not_observed because only EFI can present its callback identity while processing the registration PUT; deprecated authenticated_status is zero because no authenticated callback request is made. Never returns bearer material or a credential digest.";
        resource_types = ("automatic_webhook" ∷ []);
        idempotent = true;
        category = "capability";
      }
      ∷ [])

-- IdempotentActions
unfoldable pub idempotent_actions : List String
idempotent_actions =
    ("ensure_charge" ∷ "ensure_due_charge" ∷ "observe_charges" ∷ "destroy_charge" ∷ "refund_charge"
      ∷ "handle_chargeback" ∷ "ensure_webhook_subscription" ∷ "observe_webhook_subscriptions"
      ∷ "destroy_webhook_subscription" ∷ "verify_webhook_signature" ∷ "efi_webhook_received"
      ∷ "on_surface_query" ∷ "ensure_automatic_webhook" ∷ "observe_automatic_webhooks"
      ∷ "observe_automatic_webhook_readiness" ∷ [])
