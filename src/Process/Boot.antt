-- ===== src/Process/Boot.antt =====
-- runAdapter of cmd/adapter/main.go, and the health endpoints of cmd/adapter/health.go.
pub mod Ready
pub mod Live
pub mod Transport
use integration_efi.Base.{
  ℕ, ◌+◌, String, Bool, true, false, ◌||◌, Option, none, some, List, [], ◌∷◌, Outcome, ok, err,
  ◌==◌, ◌<>◌, if◌then◌else◌, trim_space, any,
}
use integration_efi.World.{World}
use integration_efi.Api.{Error}
use integration_efi.Session.{load}
use integration_efi.Mtls.{Loader, load_tls_config}
use integration_efi.Confidential.Data.{Bytes, Platform, RuntimePublic}
use integration_efi.Confidential.Codec.{Receiver}
use integration_efi.Confidential.Public.{metadata, new_receiver}
use integration_efi.Describe.{adapter_version}

-- What the boot does, in order.
pub data BootEvent : Type 0 where
  runtime_published : RuntimePublic → BootEvent
  reconcilers_wired : String → BootEvent  -- with the fallback instance
  registered : String → BootEvent  -- a capability's handler
  listening_http : String → BootEvent
  listening_amqp : String → BootEvent
  health_started : String → BootEvent
  tls_loaded : BootEvent
  became_ready : BootEvent  -- readiness.ready.Store(true)
  gauge_up : BootEvent
  adapter_ran : BootEvent
  health_stopped : BootEvent  -- Shutdown of the health server
  exited : String → BootEvent  -- logger.Fatal or the panic, which end the process

-- Newest first.
abbrev pub Journal : Type 0
Journal = List BootEvent

-- A boot that may end in logger.Fatal, or in a panic, with its text.
abbrev pub Boot : Type 0 → Type 0
Boot A = Journal → Outcome String A × Journal

abbrev then_boot :
    {A B : Type 0} → Outcome String A × Journal → (A → Boot B) → Outcome String B × Journal
then_boot (ok a, h) f = f a h
then_boot (err e, h) f = (err e, h)

infixl 5 ◌>>=◌ ◌>>◌
abbrev pub ◌>>=◌ : {A B : Type 0} → Boot A → (A → Boot B) → Boot B
◌>>=◌ m f h = then_boot (m h) f

abbrev pub ◌>>◌ : {A B : Type 0} → Boot A → Boot B → Boot B
m >> k = m >>= λ _. k

abbrev pub record_event : BootEvent → Boot (Unit {0})
record_event e h = (ok tt, e ∷ h)

abbrev pub or_fatal : {A E : Type 0} → String → Outcome E A → Boot A
or_fatal text (ok a) h = (ok a, h)
or_fatal text (err e) h = (err text, exited text ∷ h)

abbrev pub fatal_unless : String → Bool → Boot (Unit {0})
fatal_unless text true h = (ok tt, h)
fatal_unless text false h = (err text, exited text ∷ h)

-- What the process meets. A failure of the health server, which ends the process from beside the boot, and
-- the set-up of tracing are left out.
pub record Surroundings : Type 0 where
  pub logger_made : Bool  -- zap.NewProduction
  pub key_pair : Option (Bytes × Bytes)
  pub key_id : Option String
  pub publishes : RuntimePublic → Bool  -- publishFixedPublicRuntime
  pub loader : Loader  -- behind LoadTLSConfig
  pub run : Outcome Error (Unit {0})  -- Run of the SDK's adapter, until it is shut down

-- The switch on YGGDRASIL_TRANSPORT, of its value, the address for HTTP and the broker's URL.
unfoldable pub listen_on : String → String → String → Outcome String BootEvent
listen_on transport address broker =
    if transport == "" || transport == "http" || transport == "http_json"
    then ok (listening_http address)
    else if transport == "amqp" || transport == "rabbitmq"
    then if broker == ""
      then err "YGGDRASIL_TRANSPORT=amqp but BROKER_URL is empty"
      else ok (listening_amqp broker)
    else err "unsupported YGGDRASIL_TRANSPORT"

abbrev pub listen : Outcome String BootEvent → Boot (Unit {0})
listen (ok e) h = (ok tt, e ∷ h)
listen (err text) h = (err text, exited text ∷ h)

module _ (w : World) (p : Platform) (env : String → String) where
  -- envOrDefault
  unfoldable pub env_or_default : String → String → String
  env_or_default name fallback =
      let value = trim_space (env name) in if value == "" then fallback else value

  unfoldable pub chosen_transport : Outcome String BootEvent
  unfolding env_or_default
  chosen_transport =
      listen_on (w.to_lower (trim_space (env "YGGDRASIL_TRANSPORT")))
        (":" <> env_or_default "ADAPTER_PORT" "8081") (trim_space (env "BROKER_URL"))

  module _ (s : Surroundings) where
    -- runAdapter
    unfoldable pub run_adapter : Boot (Unit {0})
    run_adapter = do
      fatal_unless "logger" s.logger_made
      receiver ←
          or_fatal "initialize confidential runtime"
            (new_receiver p s.key_pair s.key_id adapter_version)
      fatal_unless "publish confidential public runtime" (s.publishes (metadata p receiver))
      record_event (runtime_published (metadata p receiver))
      record_event (reconcilers_wired (trim_space (env "YGGDRASIL_INTEGRATION_INSTANCE_NAME")))
      record_event (registered "describe")
      record_event (registered "execute")
      listen chosen_transport
      record_event (health_started (":" <> env_or_default "HEALTHCHECK_PORT" "8080"))
      or_fatal "load mTLS" (load_tls_config s.loader (load w env))
      record_event tls_loaded
      record_event became_ready
      record_event gauge_up
      or_fatal "adapter run" s.run
      record_event adapter_ran
      record_event health_stopped

abbrev is_ready : BootEvent → Bool
is_ready became_ready = true
is_ready _ = false

-- The handler of /readyz, with the readiness state that the boot left so far
unfoldable pub readyz : Journal → ℕ × String
readyz h = if any is_ready h then (200, "ready") else (503, "not ready")

-- The handler of /healthz
unfoldable healthz : Journal → ℕ × String
healthz h = (200, "ok")

-- Whether the health server is up: it ends with the process, or by its shutdown.
unfoldable pub is_serving : Journal → Bool
is_serving [] = false
is_serving (exited text ∷ h) = false
is_serving (health_stopped ∷ h) = false
is_serving (health_started address ∷ h) = true
is_serving (e ∷ h) = is_serving h

-- What a probe of /readyz gets, none where nothing answers.
unfoldable pub probe : Journal → Option (ℕ × String)
unfolding readyz
probe h = if is_serving h then some (readyz h) else none
