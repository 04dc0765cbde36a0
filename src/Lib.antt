-- ===== src/Lib.antt =====
-- The EFI/Pix integration adapter: a Go program that runs the payment and webhook capabilities of a
-- workflow engine against the HTTP API of the EFI payment provider.
--
-- An operation comes in with an input, a `map[string]any`; the handler of the capability checks it,
-- calls the provider through an authenticated HTTP client, and returns another map or an error. In a
-- confidential context the client lets no text of the provider out and asks a guard before a PUT.
-- The reconcilers put the three managed resources on top of the same handlers.
--
-- - Base: Booleans, lists, texts, results and integers. An `int` is an integer in range of 64 bits; the
--   one addition that can wrap is `next`. Texts are the strings' code points.
-- - Value: the dynamic values (`any`), maps as association lists with distinct keys made by `put`,
--   floats as n / 2^k, and JSON documents with their member order.
-- - World: what is not of this repository is a parameter. `Library` holds the parsers and printers of
--   the Go standard library and of google/uuid; `World` adds the provider's answers, the clock and the
--   cancellation of the context, each a function of the history of effects, so that they may answer
--   differently every time.
-- - Api: providers/efi/efiapi/client.go and confidential.go. Api.Errors holds the error values, with
--   errors.As and errors.Is; Api.Effects the actions, which map a history to a result and a longer
--   history; Api.Confidential the checks of the boundary; Api.Http doInner, do and DoRaw;
--   Api.Sanitize the texts of an error. Api.Boundary and Api.Responses prove what crosses the
--   boundary. Api.Sends and Api.Mutations are rules for what an action sends, in rulesets.
-- - Session: how a run gets its client, from providers/efi/config/config.go, configFromRequest of
--   providers/efi/adapter/adapter.go and NewEfiClientWithContext of providers/efi/efiapi/client.go.
-- - Charges: the capabilities of charges, refunds and payouts in
--   providers/efi/adapter/capabilities. Charges.Laws and Charges.Guards prove properties of them.
-- - Webhooks: the webhook capabilities of the same directory. Webhooks.Urls is webhook_url.go,
--   webhook_observation_output.go and the URL checks; Webhooks.Subscription the Pix key webhooks;
--   Webhooks.Automatic is automatic_webhook.go; Webhooks.Pagination and Webhooks.Observe are
--   observe_webhook_subscriptions.go; Webhooks.Provenance is webhook_page_provenance.go;
--   Webhooks.Signature is verify_webhook_signature.go; Webhooks.ReadinessText, Webhooks.ReadinessInputs,
--   Webhooks.Readiness, Webhooks.Readiness.Evidence and Webhooks.ReadinessNetwork are
--   observe_automatic_webhook_readiness.go, the last of them its lookup, its probe and the authorization
--   request. Modules below these prove properties of them.
-- - Routing: the names of the operations in providers/efi/adapter/spec.go, and ExecuteWithContext of
--   adapter.go over the handlers, with automatic_webhook_events.go and reactor/efi_webhook_received.go.
--   What stands behind it and is not of this repository is a parameter (Others). Routing.Served proves what
--   is served.
-- - Mtls: providers/efi/adapter/mtls.go, over the loader of the SDK. Mtls.Trust proves what is loaded.
-- - Manifest: the records of family/contract/types.go that a description is made of.
-- - Describe: Describe of providers/efi/adapter/spec.go, with its schemas (Describe.Schemas) and its actions
--   and resources (Describe.Catalog); Describe.Handler is providers/efi/message/describe.go. The other modules
--   below it prove that it advertises what is served, and when it is given.
-- - Rpc: providers/efi/message/rpc.go, the envelope of an answer.
-- - Surface: providers/efi/adapter/surface_query.go. Surface.Project holds the projections of a charge,
--   its refunds and a webhook subscription, Surface.Queries the three queries; the modules below the
--   latter prove what they change and what they disclose.
-- - Confidential: the sealed mode. Confidential.Data is providers/efi/confidential/types.go with the
--   primitives of other packages (Platform, Wire); Confidential.Strict, Confidential.Codec,
--   Confidential.Public and Confidential.Time are codec.go beside it; Confidential.Calls,
--   Confidential.Prepare, Confidential.Observe and Confidential.Ensure are
--   providers/efi/adapter/confidential.go, over the execute path. The other modules below it prove what
--   opens, what an opened request is bound to, when it is valid, and what an ensure may end in.
-- - Reconcile: providers/efi/adapter/reconcile.go, with what it wires into the SDK in Reconcile.Wiring.
--   Reconcile.Destroy proves what a destroy passes on, Reconcile.Wiring.Admitted that the gate of the execute
--   path admits what is wired.
-- - Message: providers/efi/message/execute.go, the handler of a delivery. Message.Secrecy proves what it
--   says of a sealed one.
-- - Process: cmd/adapter. Process.Files is what package os does for the runtime file; Process.Runtime and
--   Process.Command are public_runtime.go; Process.Boot is runAdapter of main.go, and health.go. A boot is
--   a journal of what it did; Process.Runtime.Atomic, Process.Boot.Ready and the modules beside them prove
--   what holds at every point of it.
-- - Contract: pkg/contractcheck/contractcheck.go, the lint of a describe contract, and what it accepts.
-- - Tests: a small environment, and the theorems at concrete inputs.
--
-- No definition runs on fuel: the loops of these handlers run over lists, and the scan of a document
-- over the document. The scan's limit of 33 levels is the source's.
--
-- Not modelled: spans, metrics and log lines, which no result depends on; the headers Accept and
-- Content-Type; the set-up of the HTTP and TLS transport; the set-up of tracing, signals, and a
-- failure of the health server, which ends the process from beside the boot; the dispatch table
-- and the emitters of the SDK; vendored packages and the user interface. What a resolver, a TLS handshake,
-- the core and the operating system answer is the environment's. A nil map reads as an empty one, and maps
-- are compared by what they hold, so the model says nothing of the order in which Go walks a map.
pub mod Base
pub mod Value
pub mod World
pub mod Api
pub mod Session
pub mod Mtls
pub mod Charges
pub mod Webhooks
pub mod Surface
pub mod Confidential
pub mod Routing
pub mod Contract
pub mod Manifest
pub mod Describe
pub mod Rpc
pub mod Message
pub mod Reconcile
pub mod Process
pub mod Tests
