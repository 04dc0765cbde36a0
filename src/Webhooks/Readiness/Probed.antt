-- ===== src/Webhooks/Readiness/Probed.antt =====
-- The lookups and the probes behind evidence of readiness.
use integration_efi.Base.{
  ◌≡◌, refl, String, Bool, true, false, ◌&&◌, List, [], ◌∷◌, Outcome, ok, err, eqb, ap,
  ok_injective,
}
use mathlib.Core.Path.{subst}
use integration_efi.World.{World, History}
use integration_efi.Api.{Error, Exec, after-eq-ok, ◌>>◌, require}
use integration_efi.Webhooks.ReadinessInputs.{
  Tools, ReadinessDeps, hiding, is_nonempty, equal_string_sets, replaced,
}
use integration_efi.Webhooks.Readiness.{probes, proven_addresses}

pub hiding-eq-ok :
    {A : Type 0} (t : String) (x : Outcome Error A × History) (a : A) (h1 : History)
    → Path (Outcome Error A × History) (replaced t x.0, x.1) (ok a, h1)
    → x ≡ (ok a, h1)
hiding-eq-ok t (ok b, h) a h1 e = e
hiding-eq-ok t (err x, h) a h1 e = cc e

pub require-eq-ok :
    {A : Type 0} (fine : Bool) (x : Error) (m : Exec A) (a : A) (h h1 : History)
    → (require fine x >> m) h ≡ (ok a, h1)
    → (fine ≡ true) × (m h ≡ (ok a, h1))
require-eq-ok true x m a h h1 e = (refl, e)
require-eq-ok false x m a h h1 e = cc e

module _ (w : World) (t : Tools) (deps : ReadinessDeps) where
  -- An address that refused a connection without a client certificate, and showed the certificate with
  -- this fingerprint.
  pub record IsRefusal (receiver_url port address fingerprint : String) : Type 0 where
    pub before : History
    pub later : History
    pub shown : String
    pub probed :
        deps.clientless_probe receiver_url (t.join_host_port address port) before
        ≡ (ok shown, later)
    pub same : w.to_lower shown ≡ fingerprint
    pub sound : (eqb (t.text_size fingerprint) 64 && t.is_hex fingerprint) ≡ true

  abbrev pub IsProbed : String → String → List String → List (String × String) → Type 0
  IsProbed url port [] [] = Unit
  IsProbed url port (a ∷ addresses) ((b, fingerprint) ∷ probed) =
      (a ≡ b) × IsRefusal url port a fingerprint × IsProbed url port addresses probed
  IsProbed url port _ _ = ⊥

  probes-IsProbed :
      (url port : String) (addresses : List String) (out : List (String × String)) (h h1 : History)
      → probes w t deps url port addresses h ≡ (ok out, h1)
      → IsProbed url port addresses out
  unfolding probes
  probes-IsProbed url port [] out h h1 e =
      subst (λ x. IsProbed url port [] x) (ok_injective (ap (λ x. x.0) e)) tt
  probes-IsProbed url port (a ∷ addresses) out h h1 e =
      let dial : String = t.join_host_port a port in
      let (shown, h2, step, e1) =
        after-eq-ok
          (hiding "clientless mTLS refusal was not proven for every receiver address"
            (deps.clientless_probe url dial) h)
          _ out h1 e in
      let probed =
        hiding-eq-ok "clientless mTLS refusal was not proven for every receiver address"
          (deps.clientless_probe url dial h) shown h2 step in
      let f : String = w.to_lower shown in
      let (sound, e2) = require-eq-ok (eqb (t.text_size f) 64 && t.is_hex f) _ _ out h2 h1 e1 in
      let (rest, h3, later, e3) = after-eq-ok (probes w t deps url port addresses h2) _ out h1 e2 in
      subst (λ x. IsProbed url port (a ∷ addresses) x) (ok_injective (ap (λ x. x.0) e3))
        (
          refl,
          record {
            before = h;
            later = h2;
            shown = shown;
            probed = probed;
            same = refl;
            sound = sound;
          },
          probes-IsProbed url port addresses rest h2 h3 later,
        )

  -- Two lookups with the same answer, and a refusal of every address in it.
  pub record IsServed (url host port expected_name : String)
      (out : List String × List String × List (String × String)) : Type 0 where
    pub first : History
    pub first_later : History
    pub resolved : deps.resolve_addresses host first ≡ (ok out.0, first_later)
    pub second : History
    pub second_later : History
    pub expected : deps.resolve_addresses expected_name second ≡ (ok out.1, second_later)
    pub some_address : is_nonempty out.0 ≡ true
    pub equal : equal_string_sets w t out.0 out.1 ≡ true
    pub refused : IsProbed url port out.0 out.2

  pub proven_addresses-IsServed :
      (url host port name : String) (out : List String × List String × List (String × String))
      (h h1 : History)
      → proven_addresses w t deps url host port name h ≡ (ok out, h1)
      → IsServed url host port name out
  unfolding proven_addresses
  proven_addresses-IsServed url host port name out h h1 e =
      let (addresses, h2, step, e1) =
        after-eq-ok (hiding "receiver DNS lookup failed" (deps.resolve_addresses host) h) _ out h1
          e in
      let (there, e2) = require-eq-ok (is_nonempty addresses) _ _ out h2 h1 e1 in
      let (expected, h3, step2, e3) =
        after-eq-ok
          (hiding "expected load balancer DNS lookup failed" (deps.resolve_addresses name) h2) _ out
          h1 e2 in
      let (there2, e4) = require-eq-ok (is_nonempty expected) _ _ out h3 h1 e3 in
      let (equal, e5) = require-eq-ok (equal_string_sets w t addresses expected) _ _ out h3 h1 e4 in
      let (probed, h4, step3, e6) =
        after-eq-ok (probes w t deps url port addresses h3) _ out h1 e5 in
      subst (λ x. IsServed url host port name x) (ok_injective (ap (λ x. x.0) e6))
        (record {
          first = h;
          first_later = h2;
          resolved =
              hiding-eq-ok "receiver DNS lookup failed" (deps.resolve_addresses host h) addresses h2
                step;
          second = h2;
          second_later = h3;
          expected =
              hiding-eq-ok "expected load balancer DNS lookup failed"
                (deps.resolve_addresses name h2) expected h3 step2;
          some_address = there;
          equal = equal;
          refused = probes-IsProbed url port addresses probed h3 h4 step3;
        })
