-- ===== src/Process/Boot/Live.antt =====
-- How far a boot comes, and how it ends.
use integration_efi.Base.{
  Option, some, none, ◌≡◌, ◌⊎◌, ◌↔◌, inl, inr, refl, ap, sym, ◌∙◌, String, Bool, true, false, [],
  ◌∷◌, Outcome, ok, err, some_injective, Bool-cases,
}
use mathlib.Core.Path.{subst}
use integration_efi.World.{World}
use integration_efi.Session.{load}
use integration_efi.Mtls.{TlsConfig, load_tls_config}
use integration_efi.Confidential.Data.{Platform}
use integration_efi.Confidential.Codec.{Receiver}
use integration_efi.Confidential.Public.{metadata, new_receiver}
use integration_efi.Describe.{adapter_version}
use integration_efi.Process.Boot.{
  BootEvent, tls_loaded, became_ready, gauge_up, adapter_ran, health_stopped, Journal, Boot,
  fatal_unless, or_fatal, listen, record_event, ◌>>=◌, ◌>>◌, Surroundings, chosen_transport,
  run_adapter, readyz, is_serving, probe,
}
use integration_efi.Process.Boot.Ready.{
  AtEvery, IsBooted, IsHonest, handlers, journal, run_adapter-IsHonest,
}

-- A journal that was reached on the way to another, or is it.
abbrev pub Reaches : (Journal → Type 0) → Journal → Type 0
Reaches P [] = P []
Reaches P (e ∷ h) = P (e ∷ h) ⊎ Reaches P h

Reaches-AtEvery :
    (P Q : Journal → Type 0) {R : Type 0} (h : Journal)
    → Reaches P h
    → AtEvery Q h
    → ((j : Journal) → P j → Q j → R)
    → R
Reaches-AtEvery P Q [] p q f = f [] p q
Reaches-AtEvery P Q (e ∷ h) (inl p) q f = f (e ∷ h) p q.0
Reaches-AtEvery P Q (e ∷ h) (inr p) q f = Reaches-AtEvery P Q h p q.1 f

-- A probe of /readyz is answered by 200.
abbrev pub IsProbedReady : Journal → Type 0
IsProbedReady h = probe h ≡ some (200, "ready")

probed-readyz : (h : Journal) → IsProbedReady h → (readyz h).0 ≡ 200
unfolding probe
probed-readyz h e = elim (Bool-cases (is_serving h)) [
  | inl serving ↦ ap (λ x. x.0) (some_injective (rw serving at e))
  | inr gone ↦ cc (rw gone at e)
]

-- Nothing answers behind a step, if nothing does behind what follows it.
after_fatal_unless :
    (text : String) (fine : Bool) (k : Boot (Unit {0})) (h : Journal)
    → (fine ≡ true → probe (k h).1 ≡ none)
    → probe ((fatal_unless text fine >> k) h).1 ≡ none
unfolding probe is_serving
after_fatal_unless text true k h later = later refl
after_fatal_unless text false k h later = refl

after_or_fatal :
    {A E : Type 0} (text : String) (r : Outcome E A) (f : A → Boot (Unit {0})) (h : Journal)
    → ((a : A) → r ≡ ok a → probe (f a h).1 ≡ none)
    → probe ((or_fatal text r >>= f) h).1 ≡ none
unfolding probe is_serving
after_or_fatal text (ok a) f h later = later a refl
after_or_fatal text (err e) f h later = refl

after_listen :
    (r : Outcome String BootEvent) (k : Boot (Unit {0})) (h : Journal)
    → ((e : BootEvent) → r ≡ ok e → probe (k (e ∷ h)).1 ≡ none)
    → probe ((listen r >> k) h).1 ≡ none
unfolding probe is_serving
after_listen (ok e) k h later = later e refl
after_listen (err text) k h later = refl

passes_fatal :
    (text : String) (fine : Bool) (k : Boot (Unit {0})) (h : Journal)
    → fine ≡ true
    → (fatal_unless text fine >> k) h ≡ k h
passes_fatal text true k h e = refl
passes_fatal text false k h e = cc e

passes_or_fatal :
    {A E : Type 0} (text : String) (r : Outcome E A) (a : A) (f : A → Boot (Unit {0})) (h : Journal)
    → r ≡ ok a
    → (or_fatal text r >>= f) h ≡ f a h
passes_or_fatal text r a f h e = ap (λ x. (or_fatal text x >>= f) h) e

passes_listen :
    (r : Outcome String BootEvent) (e : BootEvent) (k : Boot (Unit {0})) (h : Journal)
    → r ≡ ok e
    → (listen r >> k) h ≡ k (e ∷ h)
passes_listen r e k h same = ap (λ x. (listen x >> k) h) same

-- While the adapter runs, the process is ready; then it stops to answer.
run-ready :
    {E : Type 0} (text : String) (r : Outcome E (Unit {0})) (h : Journal)
    → is_serving h ≡ true
    → Reaches IsProbedReady
        ((or_fatal text r >> (record_event adapter_ran >> record_event health_stopped))
          (gauge_up ∷ became_ready ∷ h)).1
unfolding probe readyz is_serving
run-ready text (ok u) h serving = inr (inr (inl (rw serving refl)))
run-ready text (err e) h serving = inr (inl (rw serving refl))

run-ends :
    {E : Type 0} (text : String) (r : Outcome E (Unit {0})) (h : Journal)
    → probe ((or_fatal text r >> (record_event adapter_ran >> record_event health_stopped)) h).1
      ≡ none
unfolding probe is_serving
run-ends text (ok u) h = refl
run-ends text (err e) h = refl

module _ (w : World) (p : Platform) (env : String → String) (s : Surroundings) where
  -- Every step of the boot before the readiness succeeds.
  pub record IsBootable : Type 0 where
    pub heard : s.logger_made ≡ true
    pub receiver : Receiver
    pub made : new_receiver p s.key_pair s.key_id adapter_version ≡ ok receiver
    pub published : s.publishes (metadata p receiver) ≡ true
    pub listener : BootEvent
    pub chosen : chosen_transport w p env ≡ ok listener
    pub certificate : Option TlsConfig
    pub certified : load_tls_config s.loader (load w env) ≡ ok certificate

  booted-IsBootable : (h : Journal) → IsBooted w p env s h → IsBootable
  booted-IsBootable h b = record {
    heard = b.heard;
    receiver = b.receiver;
    made = b.made;
    published = b.published;
    listener = b.listener;
    chosen = b.chosen;
    certificate = b.certificate;
    certified = b.certified;
  }

  bootable-Reaches : IsBootable → Reaches IsProbedReady (run_adapter w p env s []).1
  unfolding run_adapter is_serving
  bootable-Reaches b =
      let h = tls_loaded ∷ journal w p env s b.receiver b.listener in
      subst (λ (x : Outcome String (Unit {0}) × Journal). Reaches IsProbedReady x.1)
        (sym (
          passes_fatal "logger" s.logger_made _ [] b.heard
          ∙ passes_or_fatal "initialize confidential runtime" _ b.receiver _ [] b.made
          ∙ passes_fatal "publish confidential public runtime" _ _ [] b.published
          ∙ passes_listen (chosen_transport w p env) b.listener _ (handlers w p env s b.receiver)
              b.chosen
          ∙ passes_or_fatal "load mTLS" (load_tls_config s.loader (load w env)) b.certificate _
              (journal w p env s b.receiver b.listener) b.certified))
        (run-ready "adapter run" s.run h refl)

  ends : probe (run_adapter w p env s []).1 ≡ none
  unfolding run_adapter
  ends = after_fatal_unless "logger" s.logger_made _ [] λ heard.
      after_or_fatal "initialize confidential runtime"
        (new_receiver p s.key_pair s.key_id adapter_version) _ []
        λ receiver made.
          after_fatal_unless "publish confidential public runtime"
            (s.publishes (metadata p receiver)) _ []
            λ published.
              after_listen (chosen_transport w p env) _ (handlers w p env s receiver)
                λ listener chosen.
                  after_or_fatal "load mTLS" (load_tls_config s.loader (load w env)) _
                    (journal w p env s receiver listener)
                    λ certificate certified. run-ends "adapter run" s.run _

  -- A boot comes to a point at which a probe of /readyz is answered by 200 exactly if its steps succeed: the
  -- logger and the receiver are made, the public half is published, the environment chooses a transport and
  -- the certificate can be loaded. Nothing answers any more once it has ended, also where the run failed.
  pub run_adapter_becomes_ready :
      (Reaches IsProbedReady (run_adapter w p env s []).1 ↔ IsBootable)
      × (probe (run_adapter w p env s []).1 ≡ none)
  run_adapter_becomes_ready = (
    (
      λ reached.
          Reaches-AtEvery IsProbedReady (IsHonest w p env s) (run_adapter w p env s []).1 reached
            (run_adapter-IsHonest w p env s)
            λ h probed honest. booted-IsBootable h (honest (probed-readyz h probed)),
      bootable-Reaches,
    ),
    ends,
  )
