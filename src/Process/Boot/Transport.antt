-- ===== src/Process/Boot/Transport.antt =====
-- Over which transport the process listens, and which one it describes.
use integration_efi.Base.{
  ◌≡◌, ap, sym, String, Bool, true, false, ok, err, ◌==◌, if◌then◌else◌, ◌<>◌, trim_space,
  Bool-cases, eq_iff, inl, inr, ok_injective,
}
use mathlib.Core.Path.{subst}
use integration_efi.World.{World}
use integration_efi.Confidential.Data.{Platform}
use integration_efi.Describe.{describe, spec_for, described_transport, adapter_spec}
use integration_efi.Process.Boot.{
  BootEvent, listening_amqp, listen_on, chosen_transport, env_or_default,
}

-- A transport over which the process listens for HTTP is described as HTTP, and one for a broker as such.
abbrev pub described : BootEvent → String
described (listening_amqp url) = "rabbitmq"
described _ = "http_json"

abbrev Agrees : String → String → BootEvent → String → Type 0
Agrees address broker e t =
    listen_on t address broker ≡ ok e
    → (spec_for (if t == "" then "http" else t)).transport ≡ described e

brokered :
    (broker text : String) (e : BootEvent) (b : Bool)
    → (if b then err text else ok (listening_amqp broker)) ≡ ok e
    → "rabbitmq" ≡ described e
brokered broker text e true h = cc h
brokered broker text e false h = ap described (ok_injective h)

spec_for-listen_on : (t address broker : String) (e : BootEvent) → Agrees address broker e t
unfolding listen_on spec_for
spec_for-listen_on t address broker e =
    let at : (x : String)
        → Agrees address broker e x
        → (t == x) ≡ true
        → Agrees address broker e t =
      λ x known same. subst (Agrees address broker e) (sym ((eq_iff t x).0 same)) known in
    elim (Bool-cases (t == "")) [
      | inl same ↦ at "" (λ h. ap described (ok_injective h)) same
      | inr a ↦ elim (Bool-cases (t == "http")) [
        | inl same ↦ at "http" (λ h. ap described (ok_injective h)) same
        | inr b ↦ elim (Bool-cases (t == "http_json")) [
          | inl same ↦ at "http_json" (λ h. ap described (ok_injective h)) same
          | inr c ↦ elim (Bool-cases (t == "amqp")) [
            | inl same ↦
                at "amqp"
                  (brokered broker "YGGDRASIL_TRANSPORT=amqp but BROKER_URL is empty" e
                    (broker == ""))
                  same
            | inr d ↦ elim (Bool-cases (t == "rabbitmq")) [
              | inl same ↦
                  at "rabbitmq"
                    (brokered broker "YGGDRASIL_TRANSPORT=amqp but BROKER_URL is empty" e
                      (broker == ""))
                    same
              | inr f ↦ λ h. cc (rw (a, b, c, d, f) at h)
            ]
          ]
        ]
      ]
    ]

module _ (w : World) (p : Platform) (env : String → String) where
  -- The manifest names the transport that the process listens on, in every environment in which it listens.
  pub describe-chosen_transport :
      (e : BootEvent)
      → chosen_transport w p env ≡ ok e
      → (describe w env).adapter.transport ≡ described e
  unfolding chosen_transport describe adapter_spec described_transport
  describe-chosen_transport e h =
      spec_for-listen_on (w.to_lower (trim_space (env "YGGDRASIL_TRANSPORT")))
        (":" <> env_or_default w p env "ADAPTER_PORT" "8081") (trim_space (env "BROKER_URL")) e h
