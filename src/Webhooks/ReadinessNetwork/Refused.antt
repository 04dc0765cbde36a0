-- ===== src/Webhooks/ReadinessNetwork/Refused.antt =====
-- What stands behind evidence of readiness on the network.
use integration_efi.Base.{
  ◌≡◌, refl, ap, sym, ◌∙◌, ℕ, String, Bool, true, false, not, Option, none, some, List, [], ◌∷◌,
  Outcome, ok, err, ◌==◌, all, map, Option-cases, inl, inr, ok_injective, is_some, if◌then◌else◌,
}
use integration_efi.Value.{Fields}
use integration_efi.World.{World, History}
use integration_efi.Api.{Error}
use integration_efi.Contract.{keys_of}
use integration_efi.Webhooks.ReadinessInputs.{Tools, ReadinessConfig}
use integration_efi.Webhooks.Readiness.{Found}
use integration_efi.Webhooks.Readiness.Evidence.{
  observe_automatic_webhook_readiness, readiness_output,
}
use integration_efi.Webhooks.Readiness.Probed.{IsProbed, require-eq-ok}
use integration_efi.Webhooks.Readiness.Proven.{observe_automatic_webhook_readiness-IsReady}
use integration_efi.Webhooks.ReadinessNetwork.{
  public_texts, sends_alert, Address, Layer, Handshake, Network, is_public, expected_alert,
  has_alert, is_required_client_certificate_refusal, resolve_public_addresses, judged,
  fingerprint_of, refused_by, require_clientless_tls_refusal, network_deps, is_receiver,
}

-- A server that asked for a certificate and ended the connection, because it got none, by the alert of its
-- version of TLS.
pub record IsRefused (t : Tools) (k : Handshake) (fingerprint : String) : Type 0 where
  pub silent : k.responded ≡ false
  pub chain : List Layer
  pub failed : k.failure ≡ some chain
  pub version : ℕ
  pub asked : k.requested ≡ some version
  pub in_time : k.timed_out ≡ false
  pub alert : String
  pub expected : expected_alert version ≡ some alert
  pub alerted : has_alert alert chain ≡ true
  pub leaf : List ℕ
  pub shown : k.peer ≡ some leaf
  pub digest : t.sha256_hex leaf ≡ fingerprint

-- A test that has to be false, and one that has to be true.
passed_test :
    {A : Type 0} (fine : Bool) (x : Error) (r : Outcome Error A) (a : A)
    → (if fine then err x else r) ≡ ok a
    → (fine ≡ false) × (r ≡ ok a)
passed_test true x r a e = cc e
passed_test false x r a e = (refl, e)

not-false : (b : Bool) → not b ≡ false → b ≡ true
not-false true e = refl
not-false false e = cc e

refusal-alert :
    (chain : List Layer) (version : ℕ)
    → is_required_client_certificate_refusal chain version ≡ true
    → (alert : String) × (expected_alert version ≡ some alert) × (has_alert alert chain ≡ true)
unfolding is_required_client_certificate_refusal
refusal-alert chain version e = elim (Option-cases (expected_alert version)) [
  | inl unknown ↦ cc (sym (ap (λ o. sends_alert o chain) unknown) ∙ e)
  | inr (alert, known) ↦ (alert, known, sym (ap (λ o. sends_alert o chain) known) ∙ e)
]

module _ (w : World) (t : Tools) (n : Network) where
  fingerprint_of-eq-ok :
      (peer : Option (List ℕ)) (text : String)
      → fingerprint_of w t n peer ≡ ok text
      → (leaf : List ℕ) × (peer ≡ some leaf) × (t.sha256_hex leaf ≡ text)
  fingerprint_of-eq-ok none text e = cc e
  fingerprint_of-eq-ok (some leaf) text e =
      (leaf, refl, ok_injective (passed_test (t.sha256_hex leaf == "") _ _ text e).1)

  refused_by-eq-ok :
      (k : Handshake) (cancelled : Bool) (failure : Option (List Layer)) (requested : Option ℕ)
      (text : String)
      → k.responded ≡ false
      → k.failure ≡ failure
      → k.requested ≡ requested
      → refused_by w t n cancelled k.timed_out failure requested k.peer ≡ ok text
      → IsRefused t k text
  refused_by-eq-ok k cancelled none requested text silent f r e = cc e
  refused_by-eq-ok k cancelled (some chain) none text silent f r e = cc e
  refused_by-eq-ok k cancelled (some chain) (some version) text silent f r e =
      let (alive, e1) = passed_test cancelled _ _ text e in
      let (in_time, e2) = passed_test k.timed_out _ _ text e1 in
      let (good, e3) =
        passed_test (not (is_required_client_certificate_refusal chain version)) _ _ text e2 in
      let (alert, expected, alerted) = refusal-alert chain version (not-false _ good) in
      let (leaf, shown, digest) = fingerprint_of-eq-ok k.peer text e3 in
      record {
        silent = silent;
        chain = chain;
        failed = f;
        version = version;
        asked = r;
        in_time = in_time;
        alert = alert;
        expected = expected;
        alerted = alerted;
        leaf = leaf;
        shown = shown;
        digest = digest;
      }

  judged-IsRefused :
      (cancelled : Bool) (k : Handshake) (text : String)
      → judged w t n cancelled k ≡ ok text
      → IsRefused t k text
  unfolding judged
  judged-IsRefused cancelled k text e =
      let (silent, rest) = passed_test k.responded _ _ text e in
      refused_by-eq-ok k cancelled k.failure k.requested text silent refl refl rest

  probe-IsRefused :
      (base : Bool) (url address text : String) (h h1 : History)
      → require_clientless_tls_refusal w t n base url address h ≡ (ok text, h1)
      → IsRefused t (n.connect h url address) text
  unfolding require_clientless_tls_refusal
  probe-IsRefused base url address text h h1 e =
      let (u, e1) = require-eq-ok (is_receiver w t n (w.parse_url url)) _ _ text h h1 e in
      let (v, e2) = require-eq-ok base _ _ text h h1 e1 in
      let (b, e3) = require-eq-ok (n.builds url) _ _ text h h1 e2 in
      judged-IsRefused (w.cancelled h) (n.connect h url address) text (ap (λ x. x.0) e3)

  -- An address at which some connection was refused for want of a certificate.
  pub record IsClosed (url port address fingerprint : String) : Type 0 where
    pub at : History
    pub text : String
    pub refused : IsRefused t (n.connect at url (t.join_host_port address port)) text
    pub same : w.to_lower text ≡ fingerprint

  abbrev pub AllClosed : String → String → List String → List (String × String) → Type 0
  AllClosed url port [] [] = Unit
  AllClosed url port (a ∷ addresses) ((b, fingerprint) ∷ probed) =
      (a ≡ b) × IsClosed url port a fingerprint × AllClosed url port addresses probed
  AllClosed url port _ _ = ⊥

  IsProbed-AllClosed :
      (cfg : ReadinessConfig) (url port : String) (addresses : List String)
      (probed : List (String × String))
      → IsProbed w t (network_deps w t n cfg) url port addresses probed
      → AllClosed url port addresses probed
  unfolding network_deps
  IsProbed-AllClosed cfg url port [] [] p = tt
  IsProbed-AllClosed cfg url port (a ∷ addresses) ((b, f) ∷ probed) (same, r, rest) = (
    same,
    record {
      at = r.before;
      text = r.shown;
      refused =
          probe-IsRefused (is_some cfg.tls_config) url (t.join_host_port a port) r.shown r.before
            r.later r.probed;
      same = r.same;
    },
    IsProbed-AllClosed cfg url port addresses probed rest,
  )
  IsProbed-AllClosed cfg url port [] (x ∷ probed) p = absurd p
  IsProbed-AllClosed cfg url port (a ∷ addresses) [] p = absurd p

  -- A lookup with these addresses, each of which is public.
  pub record IsPublic (host : String) (texts : List String) : Type 0 where
    pub at : History
    pub addresses : List Address
    pub found : n.lookup at host ≡ ok addresses
    pub public : all is_public addresses ≡ true
    pub named : t.sort_strings (keys_of (map (λ (a : Address). a.text) addresses)) ≡ texts

  public_texts-IsPublic :
      (host : String) (texts : List String) (at : History) (r : Outcome Error (List Address))
      → n.lookup at host ≡ r
      → public_texts w t n r ≡ ok texts
      → IsPublic host texts
  public_texts-IsPublic host texts at (err x) found e = cc e
  public_texts-IsPublic host texts at (ok addresses) found e =
      let (all_public, named) = passed_test (not (all is_public addresses)) _ _ texts e in
      record {
        at = at;
        addresses = addresses;
        found = found;
        public = not-false (all is_public addresses) all_public;
        named = ok_injective named;
      }

  resolve-IsPublic :
      (host : String) (texts : List String) (h h1 : History)
      → resolve_public_addresses w t n host h ≡ (ok texts, h1)
      → IsPublic host texts
  unfolding resolve_public_addresses
  resolve-IsPublic host texts h h1 e =
      public_texts-IsPublic host texts h (n.lookup h host) refl (ap (λ x. x.0) e)

  -- Readiness is reported only after this on the network: the receiver and the expected load balancer were
  -- looked up, and every address found is public; and at each address of the receiver a server asked for a
  -- client certificate and refused the connection without one, by the alert of its version of TLS.
  pub observe_automatic_webhook_readiness-AllClosed :
      (cfg : ReadinessConfig) (input out : Fields) (h h1 : History)
      → observe_automatic_webhook_readiness w t (network_deps w t n cfg) cfg input h ≡ (ok out, h1)
      → (f : Found w t (network_deps w t n cfg)) × (out
          ≡ readiness_output w t (network_deps w t n cfg) f)
        × IsPublic f.configured.receiver_host f.receiver_addresses
        × IsPublic f.configured.expected_dns_name f.expected_addresses
        × AllClosed f.configured.receiver_url f.configured.receiver_port f.receiver_addresses
            f.probed
  unfolding network_deps
  observe_automatic_webhook_readiness-AllClosed cfg input out h h1 e =
      let (f, ready, same) =
        observe_automatic_webhook_readiness-IsReady w t (network_deps w t n cfg) cfg input out h h1
          e in
      (
        f,
        same,
        resolve-IsPublic f.configured.receiver_host f.receiver_addresses ready.served.first
            ready.served.first_later ready.served.resolved,
        resolve-IsPublic f.configured.expected_dns_name f.expected_addresses ready.served.second
            ready.served.second_later ready.served.expected,
        IsProbed-AllClosed cfg f.configured.receiver_url f.configured.receiver_port
            f.receiver_addresses f.probed ready.served.refused,
      )
