-- ===== src/Mtls/Trust.antt =====
-- What LoadTLSConfig gives.
use integration_efi.Base.{
  ℕ, ◌≡◌, refl, Bool, true, false, not, Option, none, some, Outcome, ok, err, if◌then◌else◌,
  ok_injective,
}
use mathlib.Core.Path.{subst}
use integration_efi.Api.{Error}
use integration_efi.Session.{Config}
use integration_efi.Mtls.{
  P12Source, TlsConfig, Loader, source_of, with_roots, with_certificate, load_source,
  load_tls_config,
}

-- A certificate of the configured source, trusted through the system's roots, for TLS 1.2 at least.
pub record IsTrusted (l : Loader) (cfg : Config) (c : TlsConfig) : Type 0 where
  pub source : P12Source
  pub chosen : source_of cfg ≡ some source
  pub loaded : TlsConfig
  pub read : l.load_p12 source ≡ ok loaded
  pub same_certificates : c.certificates ≡ loaded.certificates
  pub pool : ℕ
  pub system : l.system_cert_pool ≡ ok (some pool)
  pub roots : c.roots ≡ some pool
  pub modern : c.min_version ≡ 0x0303

abbrev pub Agrees : Loader → Config → Bool → Option TlsConfig → Type 0
Agrees l cfg enabled none = enabled ≡ false
Agrees l cfg enabled (some c) = (enabled ≡ true) × IsTrusted l cfg c

module _ (l : Loader) (cfg : Config) where
  with_roots-eq-ok :
      (source : P12Source) (loaded : TlsConfig) (roots : Outcome Error (Option ℕ))
      (r : Option TlsConfig)
      → source_of cfg ≡ some source
      → l.load_p12 source ≡ ok loaded
      → l.system_cert_pool ≡ roots
      → with_roots loaded roots ≡ ok r
      → Agrees l cfg true r
  with_roots-eq-ok source loaded (err e) r chosen read system done = cc done
  with_roots-eq-ok source loaded (ok none) r chosen read system done = cc done
  with_roots-eq-ok source loaded (ok (some pool)) r chosen read system done =
      subst (Agrees l cfg true) (ok_injective done) (
        refl,
        record {
          source = source;
          chosen = chosen;
          loaded = loaded;
          read = read;
          same_certificates = refl;
          pool = pool;
          system = system;
          roots = refl;
          modern = refl;
        },
      )

  with_certificate-eq-ok :
      (source : P12Source) (x : Outcome Error TlsConfig) (r : Option TlsConfig)
      → source_of cfg ≡ some source
      → l.load_p12 source ≡ x
      → with_certificate l.system_cert_pool x ≡ ok r
      → Agrees l cfg true r
  with_certificate-eq-ok source (err e) r chosen read done = cc done
  with_certificate-eq-ok source (ok loaded) r chosen read done =
      with_roots-eq-ok source loaded l.system_cert_pool r chosen read refl done

  load_source-eq-ok :
      (s : Option P12Source) (r : Option TlsConfig)
      → source_of cfg ≡ s
      → load_source l s ≡ ok r
      → Agrees l cfg true r
  load_source-eq-ok none r chosen done = cc done
  load_source-eq-ok (some source) r chosen done =
      with_certificate-eq-ok source (l.load_p12 source) r chosen refl done

  by_switch :
      (enabled : Bool) (r : Option TlsConfig)
      → (if not enabled then ok none else load_source l (source_of cfg)) ≡ ok r
      → Agrees l cfg enabled r
  by_switch false r done = subst (Agrees l cfg false) (ok_injective done) refl
  by_switch true r done = load_source-eq-ok (source_of cfg) r refl done

  -- A success of LoadTLSConfig has no configuration exactly where mTLS is switched off; any other has the
  -- certificate of the configured source, trusts the system's roots, and wants TLS 1.2 at least.
  pub load_tls_config-Agrees :
      (r : Option TlsConfig) → load_tls_config l cfg ≡ ok r → Agrees l cfg cfg.mtls_enabled r
  unfolding load_tls_config
  load_tls_config-Agrees r done = by_switch cfg.mtls_enabled r done
