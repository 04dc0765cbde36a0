-- ===== src/Confidential/Window.antt =====
-- When an authorization is valid, and what that means for the time that a PUT may take.
use integration_efi.Base.{
  ℕ, ◌+◌, ◌*◌, ◌≤◌, ◌<◌, ◌≡◌, ◌⊎◌, ◌↔◌, Bool, true, false, some, ok, ◌==◌, arith, eq_iff, ◌&&◌,
}
use integration_efi.World.{World}
use integration_efi.Api.Confidential.{in_send_time}
use integration_efi.Confidential.Data.{Platform, Binding, or_else-eq-ok}
use integration_efi.Confidential.Time.{
  canonical_time, validate_time, check_window, second, remaining_time,
}

check_window-eq-ok_iff :
    (issued expires now : ℕ) (late : Bool)
    → (check_window issued expires now late ≡ ok tt) ↔ (
        (issued < expires)
        × (expires ≤ issued + 300 * second)
        × (issued ≤ now + 30 * second)
        × ((now < expires) ⊎ (late ≡ true)))
unfolding check_window
check_window-eq-ok_iff issued expires now late = (λ h. ground arith, λ h. ground arith)

module _ (w : World) (p : Platform) (binding : Binding) (now : ℕ) where
  -- The window of an authorization: it opens at most 30 seconds after now, lasts at most 300 seconds, and
  -- is over only for a confirmation that is allowed to be late.
  pub record IsValid (permit : Bool) : Type 0 where
    pub issued : ℕ
    pub expires : ℕ
    pub issued_read : canonical_time w p binding.issued_at ≡ some issued
    pub expires_read : canonical_time w p binding.expires_at ≡ some expires
    pub nonempty : issued < expires
    pub lasting : expires ≤ issued + 300 * second
    pub opened : issued ≤ now + 30 * second
    pub running : (now < expires) ⊎ ((permit ≡ true) × (binding.purpose ≡ "confirm"))

  validate_time_sound :
      (permit : Bool) → validate_time w p binding now permit ≡ ok tt → IsValid permit
  unfolding validate_time
  validate_time_sound permit h =
      let (issued, issued_read, h1) = or_else-eq-ok _ _ _ _ h in
      let (expires, expires_read, h2) = or_else-eq-ok _ _ _ _ h1 in
      let late : Bool = permit && binding.purpose == "confirm" in
      let open_now = (check_window-eq-ok_iff issued expires now late).0 h2 in
      record {
        issued = issued;
        expires = expires;
        issued_read = issued_read;
        expires_read = expires_read;
        nonempty = open_now.0;
        lasting = open_now.1;
        opened = open_now.2;
        running = ground (arith, open_now.3, eq_iff binding.purpose "confirm");
      }

  validate_time_complete :
      (permit : Bool) → IsValid permit → validate_time w p binding now permit ≡ ok tt
  unfolding validate_time
  validate_time_complete permit v =
      rw (v.issued_read, v.expires_read)
        ((check_window-eq-ok_iff v.issued v.expires now (permit && binding.purpose == "confirm")).1
          (
            v.nonempty,
            v.lasting,
            v.opened,
            ground (arith, v.running, eq_iff binding.purpose "confirm"),
          ))

  -- An authorization is accepted exactly in its window: both times in the canonical spelling, at most
  -- 300 seconds apart, issued at most 30 seconds ahead of the clock, and not over, unless it is for a
  -- confirmation that may be late.
  pub validate_time-eq-ok_iff :
      (permit : Bool) → (validate_time w p binding now permit ≡ ok tt) ↔ IsValid permit
  validate_time-eq-ok_iff permit = (validate_time_sound permit, validate_time_complete permit)

  -- While the guard of a PUT accepts the authorization, the time that is left for the PUT is one that
  -- the client sends in: it is positive and at most five and a half minutes.
  remaining_time-in_send_time :
      validate_time w p binding now false ≡ ok tt
      → (expires : ℕ) → canonical_time w p binding.expires_at ≡ some expires
      → in_send_time (remaining_time expires now) ≡ true
  unfolding remaining_time
  remaining_time-in_send_time h expires read =
      let v = validate_time_sound false h in
      let same : v.expires ≡ expires = cc (v.expires_read, read) in
      let running : now < expires = ground (arith, v.running, same) in
      let near : expires ≤ now + 330 * second = omega (arith, v.lasting, v.opened, same) in
      ground (arith, running, near)
