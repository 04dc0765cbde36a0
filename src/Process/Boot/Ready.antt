-- ===== src/Process/Boot/Ready.antt =====
-- When the process says that it is ready.
use integration_efi.Base.{
  Option, ◌≡◌, refl, String, Bool, true, false, [], ◌∷◌, Outcome, ok, err, ◌<>◌, trim_space, any,
  arith, inl, inr, ◌⊎◌,
}
use integration_efi.World.{World}
use integration_efi.Session.{load}
use integration_efi.Mtls.{TlsConfig, load_tls_config}
use integration_efi.Mtls.Trust.{Agrees, load_tls_config-Agrees}
use integration_efi.Confidential.Data.{Platform}
use integration_efi.Confidential.Codec.{Receiver}
use integration_efi.Confidential.Public.{metadata, new_receiver}
use integration_efi.Describe.{adapter_version}
use integration_efi.Process.Boot.{
  BootEvent, runtime_published, reconcilers_wired, registered, health_started, tls_loaded,
  became_ready, gauge_up, adapter_ran, health_stopped, exited, Journal, Boot, fatal_unless,
  or_fatal, listen, ◌>>=◌, ◌>>◌, Surroundings, listen_on, chosen_transport, run_adapter, readyz,
  is_ready, env_or_default,
}

-- A property of a journal and of all that it grew from.
abbrev pub AtEvery : (Journal → Type 0) → Journal → Type 0
AtEvery P [] = P []
AtEvery P (e ∷ h) = P (e ∷ h) × AtEvery P h

-- An event of a journal.
abbrev Has : BootEvent → Journal → Type 0
Has e [] = ⊥
Has e (x ∷ h) = (x ≡ e) ⊎ Has e h

any-false : (e : BootEvent) (h : Journal) → any is_ready (e ∷ h) ≡ false → any is_ready h ≡ false
any-false e h n = ground (arith, n)

AtEvery-unready :
    (P : Journal → Type 0) (h : Journal)
    → ((j : Journal) → any is_ready j ≡ false → P j)
    → any is_ready h ≡ false
    → AtEvery P h
AtEvery-unready P [] f n = f [] n
AtEvery-unready P (e ∷ h) f n = (f (e ∷ h) n, AtEvery-unready P h f (any-false e h n))

listen_on-unready :
    (t address broker : String) (e : BootEvent)
    → listen_on t address broker ≡ ok e
    → any is_ready (e ∷ []) ≡ false
unfolding listen_on
listen_on-unready t address broker e h = ground (arith, h)

-- A step that may end the process.
module _ (P : Journal → Type 0)
    (exits : (text : String) (h : Journal) → AtEvery P h → P (exited text ∷ h)) where
  fatal_unless-every :
      (text : String) (fine : Bool) (k : Boot (Unit {0})) (h : Journal)
      → AtEvery P h
      → (fine ≡ true → AtEvery P (k h).1)
      → AtEvery P ((fatal_unless text fine >> k) h).1
  fatal_unless-every text true k h here later = later refl
  fatal_unless-every text false k h here later = (exits text h here, here)

  or_fatal-every :
      {A E : Type 0} (text : String) (r : Outcome E A) (f : A → Boot (Unit {0})) (h : Journal)
      → AtEvery P h
      → ((a : A) → r ≡ ok a → AtEvery P (f a h).1)
      → AtEvery P ((or_fatal text r >>= f) h).1
  or_fatal-every text (ok a) f h here later = later a refl
  or_fatal-every text (err e) f h here later = (exits text h here, here)

  listen-every :
      (r : Outcome String BootEvent) (k : Boot (Unit {0})) (h : Journal)
      → AtEvery P h
      → ((e : BootEvent) → r ≡ ok e → AtEvery P (k (e ∷ h)).1)
      → AtEvery P ((listen r >> k) h).1
  listen-every (ok e) k h here later = later e refl
  listen-every (err text) k h here later = (exits text h here, here)

module _ (w : World) (p : Platform) (env : String → String) (s : Surroundings) where
  -- The process has published its receiver's public half, has its handlers and a listener, and could load its
  -- certificate, if it wants one.
  pub record IsBooted (h : Journal) : Type 0 where
    pub heard : s.logger_made ≡ true
    pub receiver : Receiver
    pub made : new_receiver p s.key_pair s.key_id adapter_version ≡ ok receiver
    pub published : s.publishes (metadata p receiver) ≡ true
    pub has_published : Has (runtime_published (metadata p receiver)) h
    pub has_describe : Has (registered "describe") h
    pub has_execute : Has (registered "execute") h
    pub has_reconcilers :
        Has (reconcilers_wired (trim_space (env "YGGDRASIL_INTEGRATION_INSTANCE_NAME"))) h
    pub listener : BootEvent
    pub chosen : chosen_transport w p env ≡ ok listener
    pub has_listener : Has listener h
    pub certificate : Option TlsConfig
    pub certified : load_tls_config s.loader (load w env) ≡ ok certificate
    pub trusted : Agrees s.loader (load w env) (load w env).mtls_enabled certificate
    pub has_certificate : Has tls_loaded h

  abbrev pub IsHonest : Journal → Type 0
  IsHonest h = (readyz h).0 ≡ 200 → IsBooted h

  unready-IsHonest : (j : Journal) → any is_ready j ≡ false → IsHonest j
  unfolding readyz
  unready-IsHonest j n r = absurd (omega (arith, rw n at r))

  abbrev every : (h : Journal) → any is_ready h ≡ false → AtEvery IsHonest h
  every h n = AtEvery-unready IsHonest h unready-IsHonest n

  listener-unready :
      (listener : BootEvent)
      → chosen_transport w p env ≡ ok listener
      → any is_ready (listener ∷ []) ≡ false
  unfolding chosen_transport
  listener-unready listener chosen = listen_on-unready _ _ _ listener chosen

  -- The journal before a transport is chosen, and before the certificate is loaded.
  abbrev pub handlers : Receiver → Journal
  handlers receiver =
      registered "execute"
      ∷ registered "describe"
      ∷ reconcilers_wired (trim_space (env "YGGDRASIL_INTEGRATION_INSTANCE_NAME"))
      ∷ runtime_published (metadata p receiver)
      ∷ []

  abbrev pub journal : Receiver → BootEvent → Journal
  journal receiver listener =
      health_started (":" <> env_or_default w p env "HEALTHCHECK_PORT" "8080")
      ∷ listener
      ∷ handlers receiver

  grow : (e : BootEvent) (h : Journal) → IsBooted h → IsBooted (e ∷ h)
  grow e h b = record {
    heard = b.heard;
    receiver = b.receiver;
    made = b.made;
    published = b.published;
    has_published = inr b.has_published;
    has_describe = inr b.has_describe;
    has_execute = inr b.has_execute;
    has_reconcilers = inr b.has_reconcilers;
    listener = b.listener;
    chosen = b.chosen;
    has_listener = inr b.has_listener;
    certificate = b.certificate;
    certified = b.certified;
    trusted = b.trusted;
    has_certificate = inr b.has_certificate;
  }

  -- Behind a boot that came that far, every event keeps the journal honest.
  abbrev BootedSoFar : Journal → Type 0
  BootedSoFar h = IsBooted h × AtEvery IsHonest h

  go_on : (e : BootEvent) (h : Journal) → BootedSoFar h → BootedSoFar (e ∷ h)
  go_on e h (b, before) = (grow e h b, (λ r. grow e h b, before))

  loaded :
      (receiver : Receiver) (listener : BootEvent) (certificate : Option TlsConfig)
      → s.logger_made ≡ true
      → new_receiver p s.key_pair s.key_id adapter_version ≡ ok receiver
      → s.publishes (metadata p receiver) ≡ true
      → chosen_transport w p env ≡ ok listener
      → load_tls_config s.loader (load w env) ≡ ok certificate
      → BootedSoFar (tls_loaded ∷ journal receiver listener)
  loaded receiver listener certificate heard made published chosen certified = (
    record {
      heard = heard;
      receiver = receiver;
      made = made;
      published = published;
      has_published = inr (inr (inr (inr (inr (inr (inl refl))))));
      has_describe = inr (inr (inr (inr (inl refl))));
      has_execute = inr (inr (inr (inl refl)));
      has_reconcilers = inr (inr (inr (inr (inr (inl refl)))));
      listener = listener;
      chosen = chosen;
      has_listener = inr (inr (inl refl));
      certificate = certificate;
      certified = certified;
      trusted = load_tls_config-Agrees s.loader (load w env) certificate certified;
      has_certificate = inl refl;
    },
    every (tls_loaded ∷ journal receiver listener) (listener-unready listener chosen),
  )

  now : (P : Journal → Type 0) (h : Journal) → AtEvery P h → P h
  now P [] p = p
  now P (e ∷ h) p = p.0

  -- An exit changes nothing of what the handler says.
  stays-IsHonest : (text : String) (h : Journal) → AtEvery IsHonest h → IsHonest (exited text ∷ h)
  unfolding readyz
  stays-IsHonest text h honest r = grow (exited text) h (now IsHonest h honest r)

  pub run_adapter-IsHonest : AtEvery IsHonest (run_adapter w p env s []).1
  unfolding run_adapter
  run_adapter-IsHonest =
      fatal_unless-every IsHonest stays-IsHonest _ s.logger_made _ [] (every [] refl) λ heard.
        or_fatal-every IsHonest stays-IsHonest _
          (new_receiver p s.key_pair s.key_id adapter_version) _ [] (every [] refl)
          λ receiver made.
            fatal_unless-every IsHonest stays-IsHonest _ (s.publishes (metadata p receiver)) _ []
              (every [] refl)
              λ published.
                listen-every IsHonest stays-IsHonest (chosen_transport w p env) _
                  (handlers receiver) (every (handlers receiver) refl)
                  λ listener chosen.
                    or_fatal-every IsHonest stays-IsHonest _ (load_tls_config s.loader (load w env))
                      _ (journal receiver listener)
                      (every (journal receiver listener) (listener-unready listener chosen))
                      λ certificate certified.
                        let up = go_on gauge_up _ (
                          go_on became_ready _ (
                            loaded receiver listener certificate heard made published chosen
                              certified)) in
                        or_fatal-every IsHonest stays-IsHonest _ s.run _ _ up.1
                          λ v ran. (go_on health_stopped _ (go_on adapter_ran _ up)).1
