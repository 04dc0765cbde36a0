-- ===== src/Mtls.antt =====
-- providers/efi/adapter/mtls.go: the TLS configuration of the calls of the provider.
pub mod Trust
use integration_efi.Base.{
  ℕ, ◌≡◌, ◌≢◌, ◌↔◌, ◌⊎◌, inl, inr, refl, ap, String, Bool, true, false, not, Option, none, some,
  List, Outcome, ok, err, ◌==◌, if◌then◌else◌, Bool-cases, eq_iff, ok_injective, some_injective,
  arith,
}
use integration_efi.Api.{Error, plain, wrap}
use integration_efi.Session.{Config}

-- mtls.Config of the SDK: where the P12 comes from
pub data P12Source : Type 0 where
  file : String → P12Source
  base64 : String → P12Source

-- tls.Config, the parts that are set; a pool of roots is named by a number
pub record TlsConfig : Type 0 where
  pub certificates : List (List (List ℕ))
  pub roots : Option ℕ
  pub min_version : ℕ

-- mtls.Load of the SDK, and x509.SystemCertPool, whose pool may be nil
pub record Loader : Type 0 where
  pub load_p12 : P12Source → Outcome Error TlsConfig
  pub system_cert_pool : Outcome Error (Option ℕ)

-- The choice of the source; the path comes first.
unfoldable pub source_of : Config → Option P12Source
source_of cfg =
    if not (cfg.certificate_path == "")
    then some (file cfg.certificate_path)
    else if not (cfg.certificate_base64 == "")
    then some (base64 cfg.certificate_base64)
    else none

-- The certificate with the roots, for TLS 1.2 (0x0303) at least.
abbrev pub with_roots : TlsConfig → Outcome Error (Option ℕ) → Outcome Error (Option TlsConfig)
with_roots loaded (err e) = err (wrap "load system root CAs" e)
with_roots loaded (ok none) = err (plain "load system root CAs: empty pool")
with_roots loaded (ok (some pool)) =
    ok (some (record loaded { roots = some pool; min_version = 0x0303 }))

abbrev pub with_certificate :
    Outcome Error (Option ℕ) → Outcome Error TlsConfig → Outcome Error (Option TlsConfig)
with_certificate roots (err e) = err e
with_certificate roots (ok loaded) = with_roots loaded roots

module _ (l : Loader) where
  abbrev pub load_source : Option P12Source → Outcome Error (Option TlsConfig)
  load_source none =
      err (plain "EFI_MTLS_ENABLED=true but no EFI_CERTIFICATE or EFI_CERTIFICATE_BASE64 set")
  load_source (some source) = with_certificate l.system_cert_pool (l.load_p12 source)

  -- LoadTLSConfig
  unfoldable pub load_tls_config : Config → Outcome Error (Option TlsConfig)
  load_tls_config cfg = if not cfg.mtls_enabled then ok none else load_source (source_of cfg)

-- Whether it was loaded, and the chains of what was.
abbrev pub is_loaded : Outcome Error (Option TlsConfig) → Outcome Error (Unit {0})
is_loaded (ok c) = ok tt
is_loaded (err e) = err e

abbrev pub chains_of : Outcome Error (Option TlsConfig) → Option (List (List (List ℕ)))
chains_of (ok (some c)) = some c.certificates
chains_of _ = none
