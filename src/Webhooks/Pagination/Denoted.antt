-- ===== src/Webhooks/Pagination/Denoted.antt =====
-- The number that a value denotes, and what the type switch of parsePaginationInteger makes of it.
use native.Mathlib.Nat.{
  mod-add-div', mul-div_cancel, mul-mod_left, one-le-pow, lt_of_mul-lt-mul_right,
  mul-lt-mul_of_pos_right, mul-le-mul_right,
}
use integration_efi.Base.{
  ℕ, zero, suc, ◌+◌, ◌*◌, ◌^◌, ◌%◌, ◌/◌, ◌≤◌, ◌<◌, ◌≡◌, ◌⊎◌, ◌↔◌, inl, inr, refl, ap, sym, ◌∙◌,
  Bool, true, false, Option, some, none, Outcome, ok, err, arith, ℤ, pos, negsuc, atoi, trim_space,
  eqb, ltb, not, ◌||◌, eqb_iff, ok_injective, if◌then◌else◌, some_injective,
}
use integration_efi.Value.{
  Value, null, bool, int, int64, float64, number, string, texts, array, object, objects, nan,
  infinite, finite, is_whole, above, below, truncated, fits_int,
}
use integration_efi.World.{World}
use integration_efi.Webhooks.Pagination.{page_number, integer_or}

-- The float n / 2^k, by its numerator's sign and size, is the integer m, which an int holds.
abbrev pub IsFloatOf : ℤ → ℕ → ℤ → Type 0
IsFloatOf (pos n) k m = (b : ℕ) × (n ≡ b * 2 ^ k) × (b < 2 ^ 63) × (m ≡ pos b)
IsFloatOf (negsuc n) k m = (c : ℕ) × (suc n ≡ suc c * 2 ^ k) × (c < 2 ^ 63) × (m ≡ negsuc c)

-- The integer that a value denotes: an integer itself, a float that is one, and a text in decimal.
abbrev pub Denotes : Value → ℤ → Type 0
Denotes (int n) m = n ≡ m
Denotes (int64 n) m = n ≡ m
Denotes (float64 (finite n k)) m = IsFloatOf n k m
Denotes (number s) m = atoi s ≡ some m
Denotes (string s) m = atoi (trim_space s) ≡ some m
Denotes _ m = ⊥

-- The float 2^63, which no int holds, and which the platform converts to this int.
abbrev pub IsConverted : World → Value → ℤ → Type 0
IsConverted w (float64 (finite (pos n) k)) m =
    (n ≡ 2 ^ 63 * 2 ^ k) × (w.unfit_int (finite (pos n) k) ≡ m)
IsConverted w _ m = ⊥

-- A multiple of a positive number.
whole-multiple : (n d : ℕ) → n % d ≡ 0 → n ≡ n / d * d
whole-multiple n d h = omega (arith, mod-add-div' n d, h)

lt_left : (a b c : ℕ) → a ≡ b → a < c → b < c
lt_left a b c e h = omega arith

lt_left_back : (a b c : ℕ) → a ≡ b → b < c → a < c
lt_left_back a b c e h = omega arith

-- The choice between an error, a conversion and the platform's own.
chosen : {E : Type 0} → E → Bool → Bool → Bool → Bool → ℤ → ℤ → Outcome E ℤ
chosen e whole high low fits t u =
    if not whole || high || low then err e else ok (if fits then t else u)

-- What was chosen, where it is no error.
Choice : Bool → Bool → Bool → Bool → ℤ → ℤ → ℤ → Type 0
Choice whole high low fits t u m =
    (whole ≡ true)
    × (high ≡ false)
    × (low ≡ false)
    × (((fits ≡ true) × (t ≡ m)) ⊎ ((fits ≡ false) × (u ≡ m)))

chosen_iff :
    {E : Type 0} (e : E) (whole high low fits : Bool) (t u m : ℤ)
    → (chosen e whole high low fits t u ≡ ok m) ↔ Choice whole high low fits t u m
unfolding chosen Choice
chosen_iff e false high low fits t u m = (λ h. cc h, λ c. cc c.0)
chosen_iff e true true low fits t u m = (λ h. cc h, λ c. cc c.1)
chosen_iff e true false true fits t u m = (λ h. cc h, λ c. let (a, b, d, f) = c in cc d)
chosen_iff e true false false true t u m = (
  λ h. (refl, refl, refl, inl (refl, ok_injective h)),
  λ c. let (a, b, d, f) = c in elim f [ inl same ↦ ap ok same.1 | inr other ↦ cc other.0 ],
)
chosen_iff e true false false false t u m = (
  λ h. (refl, refl, refl, inr (refl, ok_injective h)),
  λ c. let (a, b, d, f) = c in elim f [ inl other ↦ cc other.0 | inr same ↦ ap ok same.1 ],
)

ltb-true : (a b : ℕ) → a < b → ltb a b ≡ true
ltb-true a b h = ground arith

ltb-false : (a b : ℕ) → b ≤ a → ltb a b ≡ false
ltb-false a b h = ground arith

-- A numerator that is not negative, over a positive denominator, against a bound.
positive_iff :
    (n d bound : ℕ) (u m : ℤ)
    → 0 < d
    → Choice (eqb (n % d) 0) (ltb (bound * d) n) false (ltb n (bound * d)) (pos (n / d)) u m
      ↔ (((b : ℕ) × (n ≡ b * d) × (b < bound) × (m ≡ pos b)) ⊎ ((n ≡ bound * d) × (u ≡ m)))
unfolding Choice
positive_iff n d bound u m p = (
  λ c.
      let (whole, high, low, f) = c in
      let multiple = whole-multiple n d ((eqb_iff (n % d) 0).0 whole) in
      elim f [
        | inl (fits, same) ↦ inl (
          n / d,
          multiple,
          lt_of_mul-lt-mul_right d (lt_left n (n / d * d) (bound * d) multiple (ground arith)),
          sym same,
        )
        | inr (unfit, same) ↦ inr (ground arith, same)
      ],
  λ r. elim r [
    | inl (b, multiple, less, same) ↦
        let below_bound : n < bound * d =
          lt_left_back n (b * d) (bound * d) multiple (mul-lt-mul_of_pos_right less p) in
        (
          rw multiple ((eqb_iff (b * d % d) 0).1 (mul-mod_left b d)),
          ltb-false (bound * d) n (omega (arith, below_bound)),
          refl,
          inl (
            ltb-true n (bound * d) below_bound,
            ap pos (ap (λ x. x / d) multiple ∙ mul-div_cancel b p) ∙ sym same,
          ),
        )
    | inr (bounding, same) ↦ (
      rw bounding ((eqb_iff (bound * d % d) 0).1 (mul-mod_left bound d)),
      ltb-false (bound * d) n (omega (arith, bounding)),
      refl,
      inr (ltb-false n (bound * d) (omega (arith, bounding)), same),
    )
  ],
)

minus : ℕ → ℤ
minus zero = pos 0
minus (suc n) = negsuc n

-- A quotient of a negative numerator.
negative_quotient :
    (n d bound q : ℕ) (m : ℤ)
    → 0 < d
    → suc n ≡ q * d
    → suc n ≤ bound * d
    → minus q ≡ m
    → (c : ℕ) × (suc n ≡ suc c * d) × (c < bound) × (m ≡ negsuc c)
unfolding minus
negative_quotient n d bound zero m p multiple small same = absurd (omega (arith, multiple))
negative_quotient n d bound (suc c) m p multiple small same =
    let less : suc c * d < (bound + 1) * d = omega (arith, multiple, small, p) in
    let within : suc c < bound + 1 = lt_of_mul-lt-mul_right d less in
    (c, multiple, omega (arith, within), sym same)

negative_iff :
    (n d bound : ℕ) (u m : ℤ)
    → 0 < d
    → Choice
        (eqb (suc n % d) 0)
        false
        (ltb (bound * d) (suc n))
        (ltb (suc n) ((bound + 1) * d))
        (minus (suc n / d))
        u
        m
      ↔ ((c : ℕ) × (suc n ≡ suc c * d) × (c < bound) × (m ≡ negsuc c))
unfolding Choice minus
negative_iff n d bound u m p = (
  λ c.
      let (whole, high, low, f) = c in
      let multiple = whole-multiple (suc n) d ((eqb_iff (suc n % d) 0).0 whole) in
      let small : suc n ≤ bound * d = ground (arith, low) in
      elim f [
        | inl (fits, same) ↦ negative_quotient n d bound (suc n / d) m p multiple small same
        | inr (unfit, same) ↦
            let wide : (bound + 1) * d ≤ suc n = ground (arith, unfit) in
            absurd (omega (arith, wide, small, p))
      ],
  λ r.
      let (c, multiple, less, same) = r in
      let small : suc c * d ≤ bound * d = mul-le-mul_right d less in
      (
        rw multiple ((eqb_iff (suc c * d % d) 0).1 (mul-mod_left (suc c) d)),
        refl,
        ltb-false (bound * d) (suc n) (omega (arith, multiple, small)),
        inl (
          ltb-true (suc n) ((bound + 1) * d) (omega (arith, multiple, small, p)),
          ap minus (ap (λ x. x / d) multiple ∙ mul-div_cancel (suc c) p) ∙ sym same,
        ),
      ),
)

integer_or_iff : (o : Option ℤ) (m : ℤ) → (integer_or o ≡ ok m) ↔ (o ≡ some m)
integer_or_iff none m = (λ h. cc h, λ h. cc h)
integer_or_iff (some n) m = (λ h. ap some (ok_injective h), λ h. ap ok (some_injective h))

both_iff : {A B C : Type 0} → A ↔ B → B ↔ C → A ↔ C
both_iff (to, from) (on, back) = (λ a. on (to a), λ c. from (back c))

left_iff : {A B C : Type 0} → A ↔ B → ¬ C → A ↔ (B ⊎ C)
left_iff (to, from) none_there =
    (λ a. inl (to a), λ r. elim r [ inl b ↦ from b | inr c ↦ absurd (none_there c) ])

neither_iff : {A : Type 0} → ¬ A → A ↔ (⊥ ⊎ ⊥)
neither_iff no_result =
    (λ a. absurd (no_result a), λ r. elim r [ inl z ↦ absurd z | inr z ↦ absurd z ])

-- The type switch gives the integer that the value denotes, and else only for the float 2^63 what the
-- platform makes of it.
pub page_number-Denotes_iff :
    (w : World) (v : Value) (m : ℤ) → (page_number w v ≡ ok m) ↔ (Denotes v m ⊎ IsConverted w v m)
unfolding page_number is_whole above below truncated fits_int chosen minus
page_number-Denotes_iff w (int n) m = left_iff (λ h. ok_injective h, λ e. ap ok e) (λ z. z)
page_number-Denotes_iff w (int64 n) m = left_iff (λ h. ok_injective h, λ e. ap ok e) (λ z. z)
page_number-Denotes_iff w (number s) m = left_iff (integer_or_iff (atoi s) m) (λ z. z)
page_number-Denotes_iff w (string s) m = left_iff (integer_or_iff (atoi (trim_space s)) m) (λ z. z)
page_number-Denotes_iff w (float64 nan) m = neither_iff (λ h. cc h)
page_number-Denotes_iff w (float64 (infinite b)) m = neither_iff (λ h. cc h)
page_number-Denotes_iff w (float64 (finite (pos n) k)) m = both_iff (chosen_iff _ _ _ _ _ _ _ m) (
    positive_iff n (2 ^ k) (2 ^ 63) (w.unfit_int (finite (pos n) k)) m
      (one-le-pow k 2 (omega arith)))
page_number-Denotes_iff w (float64 (finite (negsuc n) k)) m =
    left_iff
      (both_iff (chosen_iff _ _ _ _ _ _ _ m) (
        negative_iff n (2 ^ k) (2 ^ 63) (w.unfit_int (finite (negsuc n) k)) m
          (one-le-pow k 2 (omega arith))))
      (λ z. z)
page_number-Denotes_iff w null m = neither_iff (λ h. cc h)
page_number-Denotes_iff w (bool b) m = neither_iff (λ h. cc h)
page_number-Denotes_iff w (texts ss) m = neither_iff (λ h. cc h)
page_number-Denotes_iff w (array vs) m = neither_iff (λ h. cc h)
page_number-Denotes_iff w (object fs) m = neither_iff (λ h. cc h)
page_number-Denotes_iff w (objects fs) m = neither_iff (λ h. cc h)
