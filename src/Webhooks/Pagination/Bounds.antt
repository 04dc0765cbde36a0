-- ===== src/Webhooks/Pagination/Bounds.antt =====
-- Which page numbers and sizes pass.
use integration_efi.Base.{
  ℕ, ◌≤◌, ◌≡◌, ◌⊎◌, inl, inr, refl, ap, sym, ◌∙◌, Outcome, ok, err, arith, ℤ, pos, negsuc,
  ok_injective, ◌↔◌,
}
use integration_efi.Value.{Value}
use integration_efi.World.{World}
use integration_efi.Webhooks.Pagination.Denoted.{Denotes, IsConverted, page_number-Denotes_iff}
use integration_efi.Webhooks.Pagination.{page_number, in_bounds, parse_pagination_integer}

-- A number from `low` on, up to `high` unless that is 0.
abbrev pub InBounds : ℕ → ℕ → ℤ → Type 0
InBounds low high n = (m : ℕ) × (n ≡ pos m) × (low ≤ m) × ((high ≡ 0) ⊎ (m ≤ high))

in_bounds_iff :
    (low high : ℕ) (n m : ℤ) → (in_bounds low high n ≡ ok m) ↔ ((n ≡ m) × InBounds low high m)
unfolding in_bounds
in_bounds_iff low high (pos n) m =
    (λ h. (ground arith, (n, ground arith, ground arith, ground arith)), λ p. ground arith)
in_bounds_iff low high (negsuc n) m = (λ h. ground arith, λ p. ground arith)

Outcome-cases : {E A : Type 0} (r : Outcome E A) → ((e : E) × (r ≡ err e)) ⊎ ((a : A) × (r ≡ ok a))
Outcome-cases (err e) = inl (e, refl)
Outcome-cases (ok a) = inr (a, refl)

-- A pagination field is accepted as n exactly when n is in the bounds and its value denotes n: it is that
-- integer, a float of that size and no fraction, or a text of it in decimal, which an int holds. The one
-- exception is the float 2^63, which passes as the int that the platform converts it to. In particular no
-- negative number passes.
pub parse_pagination_integer-InBounds_iff :
    (w : World) (v : Value) (low high : ℕ) (n : ℤ)
    → (parse_pagination_integer w v low high ≡ ok n)
      ↔ ((Denotes v n ⊎ IsConverted w v n) × InBounds low high n)
unfolding parse_pagination_integer
parse_pagination_integer-InBounds_iff w v low high n =
    let (read, back) = page_number-Denotes_iff w v n in
    elim (Outcome-cases (page_number w v)) [
      | inl (e, bad) ↦ (λ h. cc (bad, h), λ p. cc (bad, back p.0))
      | inr (m, good) ↦
          let (to, from) = in_bounds_iff low high m n in
          let parsed : parse_pagination_integer w v low high ≡ in_bounds low high m = cc good in
          (
            λ h. let (same, inside) = to (sym parsed ∙ h) in (read (good ∙ ap ok same), inside),
            λ p. parsed ∙ from (ok_injective (sym good ∙ back p.0), p.1),
          )
    ]
