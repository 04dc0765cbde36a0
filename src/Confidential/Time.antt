-- ===== src/Confidential/Time.antt =====
-- ValidateTime of providers/efi/confidential/codec.go. An instant is a number of nanoseconds.
use integration_efi.Base.{
  ℕ, ◌+◌, ◌-◌, ◌*◌, ◌^◌, String, Bool, ◌&&◌, ◌||◌, Option, none, some, Outcome, ◌==◌, leb, ltb, ℤ,
  pos, negsuc, if◌then◌else◌,
}
use integration_efi.World.{World}
use integration_efi.Api.{Error}
use integration_efi.Api.Errors.{invalid, expired}
use integration_efi.Confidential.Data.{Platform, Binding, ◌>>=◌, ◌>>◌, demand, or_else}

abbrev pub second : ℕ
second = 1000000000

-- The comparisons of ValidateTime; `late` is for an authorization that may be over.
unfoldable pub check_window : ℕ → ℕ → ℕ → Bool → Outcome Error (Unit {0})
check_window issued expires now late = do
  demand (ltb issued expires) invalid
  demand (leb expires (issued + 300 * second)) invalid
  demand (leb issued (now + 30 * second)) invalid
  demand (ltb now expires || late) expired

module _ (w : World) (p : Platform) where
  -- time.Parse, of a text that is the one that Format gives.
  unfoldable pub canonical_time : String → Option ℕ
  canonical_time text = elim (w.parse_rfc3339_nano text) [
    | none ↦ none
    | some t ↦ if p.format_rfc3339_nano t == text then some t else none
  ]

  -- ValidateTime
  unfoldable pub validate_time : Binding → ℕ → Bool → Outcome Error (Unit {0})
  validate_time binding now permit_expired_confirm = do
    issued ← or_else (canonical_time binding.issued_at) invalid
    expires ← or_else (canonical_time binding.expires_at) invalid
    check_window issued expires now (permit_expired_confirm && binding.purpose == "confirm")

-- deadline.Sub(now), which stops at the ends of 64 bits
unfoldable pub remaining_time : ℕ → ℕ → ℤ
remaining_time deadline now =
    if leb now deadline
    then pos (if leb (deadline - now) (2 ^ 63 - 1) then deadline - now else 2 ^ 63 - 1)
    else negsuc (if leb (now - deadline) (2 ^ 63) then now - deadline - 1 else 2 ^ 63 - 1)
