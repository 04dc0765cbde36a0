-- ===== src/Base/Texts.antt =====
-- The part of Go's `strings`, `unicode` and `strconv` that the adapter uses, on native texts.
use Prim.Native.Nat.{ℕ, zero, suc, ◌+◌, ◌-◌, ◌*◌, ◌/◌, ◌%◌, ◌^◌}
use Prim.Native.Char.{code}
use Prim.Native.String
use Prim.Native.String.{String, [], ◌∷◌, count}
use mathlib.Core.Bool.{Bool, true, false, ◌&&◌, ◌||◌}
use mathlib.Core.Option.{Option, none, some}
use text.Mathlib.Text.{◌==◌}
use integration_efi.Base.Tests.{leb, ltb, eqb, if◌then◌else◌}
use integration_efi.Base.Int.{ℤ, pos, negsuc}

infixl 65 ◌<>◌
abbrev pub ◌<>◌ : String → String → String
s <> t = String.◌++◌ s t

-- unicode.IsSpace
abbrev pub is_space : ℕ → Bool
is_space c =
    leb 9 c && leb c 13
    || eqb c 32
    || eqb c 0x85
    || eqb c 0xa0
    || eqb c 0x1680
    || leb 0x2000 c && leb c 0x200a
    || eqb c 0x2028
    || eqb c 0x2029
    || eqb c 0x202f
    || eqb c 0x205f
    || eqb c 0x3000

-- unicode.IsControl
abbrev pub is_control : ℕ → Bool
is_control c = leb c 31 || leb 127 c && leb c 159

-- strings.IndexFunc(s, p) >= 0
unfoldable pub any_char : (ℕ → Bool) → String → Bool
any_char p [] = false
any_char p (c ∷ s) = p (code c) || any_char p s

unfoldable pub trim_left : (ℕ → Bool) → String → String
trim_left p [] = []
trim_left p (c ∷ s) = let rest = trim_left p s in if p (code c) then rest else c ∷ s

unfoldable pub trim_right : (ℕ → Bool) → String → String
trim_right p [] = []
trim_right p (c ∷ s) =
    let rest = trim_right p s in if rest == "" && p (code c) then [] else c ∷ rest

-- strings.TrimSpace
unfoldable pub trim_space : String → String
unfolding trim_left trim_right
trim_space s = trim_right is_space (trim_left is_space s)

unfoldable pub has_prefix : String → String → Bool
has_prefix s [] = true
has_prefix [] (d ∷ p) = false
has_prefix (c ∷ s) (d ∷ p) = eqb (code c) (code d) && has_prefix s p

unfoldable pub has_suffix : String → String → Bool
has_suffix [] p = p == ""
has_suffix (c ∷ s) p = c ∷ s == p || has_suffix s p

-- strings.Contains
unfoldable pub has_infix : String → String → Bool
unfolding has_prefix
has_infix [] p = p == ""
has_infix (c ∷ s) p = has_prefix (c ∷ s) p || has_infix s p

-- strings.TrimPrefix: a prefix that is not there leaves the text alone
strip : String → String → Option String
strip s [] = some s
strip [] (d ∷ p) = none
strip (c ∷ s) (d ∷ p) = let rest = strip s p in if eqb (code c) (code d) then rest else none

unfoldable pub trim_prefix : String → String → String
unfolding strip
trim_prefix s p = elim (strip s p) [ none ↦ s | some rest ↦ rest ]

-- The text behind the last occurrence of a character: the last element of strings.Split.
last_from : ℕ → String → String → String
last_from sep held [] = held
last_from sep held (c ∷ s) = last_from sep (if eqb (code c) sep then s else held) s

unfoldable pub last_segment : ℕ → String → String
unfolding last_from
last_segment sep s = last_from sep s s

-- strings.ReplaceAll(s, c, "")
unfoldable pub without_char : ℕ → String → String
without_char x [] = []
without_char x (c ∷ s) = let rest = without_char x s in if eqb (code c) x then rest else c ∷ rest

-- The simple case folding of a character, as far as it reaches an ASCII letter: U+017F folds to s
-- and U+212A to k.
abbrev fold_char : ℕ → ℕ
fold_char c =
    if leb 65 c && leb c 90
    then c + 32
    else if eqb c 0x17f
    then 115
    else if eqb c 0x212a
    then 107
    else c

-- strings.EqualFold, for a second text of ASCII letters
unfoldable pub equal_fold : String → String → Bool
equal_fold [] [] = true
equal_fold (c ∷ s) (d ∷ t) = eqb (fold_char (code c)) (fold_char (code d)) && equal_fold s t
equal_fold _ _ = false

digit_text : ℕ → String
digit_text zero = "0"
digit_text (suc zero) = "1"
digit_text (suc (suc zero)) = "2"
digit_text (suc (suc (suc zero))) = "3"
digit_text (suc (suc (suc (suc zero)))) = "4"
digit_text (suc (suc (suc (suc (suc zero))))) = "5"
digit_text (suc (suc (suc (suc (suc (suc zero)))))) = "6"
digit_text (suc (suc (suc (suc (suc (suc (suc zero))))))) = "7"
digit_text (suc (suc (suc (suc (suc (suc (suc (suc zero)))))))) = "8"
digit_text _ = "9"

-- At most `fuel` digits; a number has fewer digits than its value plus one.
digits_text : ℕ → ℕ → String
digits_text zero n = ""
digits_text (suc fuel) n =
    let more = digits_text fuel (n / 10) in
    if ltb n 10 then digit_text n else more <> digit_text (n % 10)

unfoldable pub itoa_ℕ : ℕ → String
unfolding digits_text digit_text
itoa_ℕ n = digits_text (suc n) n

-- strconv.Itoa
unfoldable pub itoa : ℤ → String
unfolding itoa_ℕ
itoa (pos n) = itoa_ℕ n
itoa (negsuc n) = "-" <> itoa_ℕ (suc n)

read_digits : ℕ → String → Option ℕ
read_digits n [] = some n
read_digits n (c ∷ s) =
    let rest = read_digits (n * 10 + (code c - 48)) s in
    if leb 48 (code c) && leb (code c) 57 then rest else none

abbrev read_number : String → Option ℕ
read_number s = if s == "" then none else unfold read_digits in read_digits 0 s

-- The integers of 64 bits.
abbrev pub max_int : ℕ
max_int = 2 ^ 63 - 1

abbrev negated : ℕ → ℤ
negated zero = pos 0
negated (suc n) = negsuc n

-- strconv.Atoi and strconv.ParseInt(s, 10, 64): a sign, digits, and the range of 64 bits
unfoldable pub atoi : String → Option ℤ
unfolding read_digits
atoi [] = none
atoi (c ∷ s) =
    if eqb (code c) b'-'
    then elim (read_number s) [
      | none ↦ none
      | some n ↦ if leb n (max_int + 1) then some (negated n) else none
    ]
    else elim (read_number (if eqb (code c) b'+' then s else c ∷ s)) [
      | none ↦ none
      | some n ↦ if leb n max_int then some (pos n) else none
    ]

-- len([]rune(s))
abbrev pub rune_count : String → ℕ
rune_count s = count s
