-- ===== src/Webhooks/Readiness/Proven.antt =====
-- What stands behind evidence of readiness.
use integration_efi.Base.{
  ◌≡◌, String, true, not, Option, none, some, ok, ◌==◌, ◌<◌, arith, sym, ap, ℕ, trim_space,
  ok_injective,
}
use mathlib.Core.Path.{subst}
use integration_efi.Value.{Fields}
use integration_efi.World.{World, History}
use integration_efi.Webhooks.Readiness.Evidence.{
  observe_automatic_webhook_readiness, readiness_output,
}
use integration_efi.Api.{after-eq-ok}
use integration_efi.Webhooks.ReadinessInputs.{
  Tools, ReadinessConfig, EventAuthorization, ReadinessDeps, hiding, normalized_receiver_url,
  normalized_provider_base_url, or_fault, leaf_of, exact_authorization, is_nonempty,
}
use integration_efi.Webhooks.Readiness.{
  proven_addresses, proven_authorization, unexpired, Found, Configured, found, configuration,
  checked_input,
}
use integration_efi.Webhooks.Readiness.Probed.{
  hiding-eq-ok, require-eq-ok, IsServed, proven_addresses-IsServed,
}

module _ (w : World) (t : Tools) (deps : ReadinessDeps) where
  unexpired-lt :
      (time : Option ℕ) (expiry : ℕ) (h h1 : History)
      → unexpired w t deps time h ≡ (ok expiry, h1)
      → w.now h < expiry
  unfolding unexpired
  unexpired-lt none expiry h h1 e = cc e
  unexpired-lt (some n) expiry h h1 e = let value = ap (λ x. x.0) e in ground (arith, value)

  unexpired-some :
      (time : Option ℕ) (expiry : ℕ) (h h1 : History)
      → unexpired w t deps time h ≡ (ok expiry, h1)
      → time ≡ some expiry
  unfolding unexpired
  unexpired-some none expiry h h1 e = cc e
  unexpired-some (some n) expiry h h1 e = let value = ap (λ x. x.0) e in ground (arith, value)

  -- An exact grant for this instance, which is not over: the expiry that it names is after the answer.
  pub record IsGranted (core_url token instance_id : String) (out : EventAuthorization × ℕ)
      : Type 0 where
    pub asked : History
    pub answered : History
    pub granted : deps.authorize_event core_url token instance_id asked ≡ (ok out.0, answered)
    pub exact : exact_authorization w t out.0 instance_id ≡ true
    pub expires : w.parse_rfc3339 (trim_space out.0.principal_expires_at) ≡ some out.1
    pub unexpired_then : w.now answered < out.1

  proven_authorization-IsGranted :
      (core_url token instance_id : String) (out : EventAuthorization × ℕ) (h h1 : History)
      → proven_authorization w t deps core_url token instance_id h ≡ (ok out, h1)
      → IsGranted core_url token instance_id out
  unfolding proven_authorization
  proven_authorization-IsGranted core_url token instance_id out h h1 e =
      let (a, h2, step, e1) =
        after-eq-ok
          (hiding "Core event authorization proof failed"
            (deps.authorize_event core_url token instance_id) h)
          _ out h1 e in
      let (expiry, h3, step2, e2) =
        after-eq-ok (unexpired w t deps (w.parse_rfc3339 (trim_space a.principal_expires_at)) h2) _
          out h1 e1 in
      let (exact, e3) = require-eq-ok (exact_authorization w t a instance_id) _ _ out h3 h1 e2 in
      subst (λ x. IsGranted core_url token instance_id x) (ok_injective (ap (λ x. x.0) e3))
        (record {
          asked = h;
          answered = h2;
          granted =
              hiding-eq-ok "Core event authorization proof failed"
                (deps.authorize_event core_url token instance_id h) a h2 step;
          exact = exact;
          expires = unexpired-some _ expiry h2 h3 step2;
          unexpired_then = unexpired-lt _ expiry h2 h3 step2;
        })

  -- What the configuration showed: a sound receiver URL, and that EFI authenticated the adapter.
  pub record IsConfigured (cfg : ReadinessConfig) (c : Configured w t deps) : Type 0 where
    pub receiver :
        normalized_receiver_url w t cfg.receiver_url
        ≡ some (c.receiver_url, c.receiver_host, c.receiver_port)
    pub authenticated : cfg.oauth_authenticated ≡ true

  -- What was proven before the adapter says that it is ready.
  pub record IsReady (cfg : ReadinessConfig) (f : Found w t deps) : Type 0 where
    pub configured : IsConfigured cfg f.configured
    pub served :
        IsServed w t deps f.configured.receiver_url f.configured.receiver_host
          f.configured.receiver_port f.configured.expected_dns_name
          (f.receiver_addresses, f.expected_addresses, f.probed)
    pub granted :
        IsGranted cfg.core_url cfg.event_token f.configured.instance_id
          (f.authorization, f.principal_expires_at)

  or_fault-eq-ok :
      {A : Type 0} (o : Option A) (text : String) (a : A) (h h1 : History)
      → or_fault o text h ≡ (ok a, h1)
      → o ≡ some a
  or_fault-eq-ok none text a h h1 e = cc e
  or_fault-eq-ok (some b) text a h h1 e = ap some (ok_injective (ap (λ x. x.0) e))

  configuration-IsConfigured :
      (cfg : ReadinessConfig) (input : Fields) (c : Configured w t deps) (h h1 : History)
      → configuration w t deps cfg input h ≡ (ok c, h1)
      → IsConfigured cfg c
  unfolding configuration
  configuration-IsConfigured cfg input c h h1 e =
      let (name, h2, s1, e1) = after-eq-ok (checked_input w t deps input h) _ c h1 e in
      let (receiver, h3, s2, e2) =
        after-eq-ok
          (or_fault (normalized_receiver_url w t cfg.receiver_url)
            "configured receiver URL is invalid" h2)
          _ c h1 e1 in
      let (chains, h4, s3, e3) =
        after-eq-ok (or_fault cfg.tls_config "EFI client certificate is unavailable" h3) _ c h1
          e2 in
      let (certified, e4) = require-eq-ok (is_nonempty chains) _ _ c h4 h1 e3 in
      let (authenticated, e5) = require-eq-ok cfg.oauth_authenticated _ _ c h4 h1 e4 in
      let (named, e6) = require-eq-ok (not (trim_space cfg.instance_id == "")) _ _ c h4 h1 e5 in
      let (base, h5, s4, e7) =
        after-eq-ok
          (or_fault (normalized_provider_base_url w t cfg.provider_base_url)
            "configured EFI base URL is invalid" h4)
          _ c h1 e6 in
      let (leaf, h6, s5, e8) =
        after-eq-ok
          (or_fault (leaf_of chains) "EFI client certificate fingerprint is unavailable" h5) _ c h1
          e7 in
      subst (λ x. IsConfigured cfg x) (ok_injective (ap (λ x. x.0) e8))
        (record {
          receiver =
              or_fault-eq-ok (normalized_receiver_url w t cfg.receiver_url)
                "configured receiver URL is invalid" receiver h2 h3 s2;
          authenticated = authenticated;
        })

  found-IsReady :
      (cfg : ReadinessConfig) (input : Fields) (f : Found w t deps) (h h1 : History)
      → found w t deps cfg input h ≡ (ok f, h1)
      → IsReady cfg f
  unfolding found
  found-IsReady cfg input f h h1 e =
      let (c, h2, s1, e1) = after-eq-ok (configuration w t deps cfg input h) _ f h1 e in
      let (out, h3, s2, e2) =
        after-eq-ok
          (proven_addresses w t deps c.receiver_url c.receiver_host c.receiver_port
            c.expected_dns_name h2)
          _ f h1 e1 in
      let (grant, h4, s3, e3) =
        after-eq-ok (proven_authorization w t deps cfg.core_url cfg.event_token c.instance_id h3) _
          f h1 e2 in
      subst (λ x. IsReady cfg x) (ok_injective (ap (λ x. x.0) e3))
        (record {
          configured = configuration-IsConfigured cfg input c h h2 s1;
          served =
              proven_addresses-IsServed w t deps c.receiver_url c.receiver_host c.receiver_port
                c.expected_dns_name out h2 h3 s2;
          granted =
              proven_authorization-IsGranted cfg.core_url cfg.event_token c.instance_id grant h3 h4
                s3;
        })

  pub observe_automatic_webhook_readiness-IsReady :
      (cfg : ReadinessConfig) (input out : Fields) (h h1 : History)
      → observe_automatic_webhook_readiness w t deps cfg input h ≡ (ok out, h1)
      → (f : Found w t deps) × IsReady cfg f × (out ≡ readiness_output w t deps f)
  unfolding observe_automatic_webhook_readiness
  observe_automatic_webhook_readiness-IsReady cfg input out h h1 e =
      let (f, h2, s1, e1) = after-eq-ok (found w t deps cfg input h) _ out h1 e in
      (f, found-IsReady cfg input f h h2 s1, sym (ok_injective (ap (λ x. x.0) e1)))
