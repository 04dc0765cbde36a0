-- ===== src/Tests/Unary.antt =====
-- A reversible text of a list of numbers: each in unary, behind it a mark.
use Prim.Native.Char.{code}
use Prim.Native.String.{[], ◌∷◌}
use integration_efi.Base.{
  ℕ, zero, suc, ◌+◌, ◌≡◌, refl, String, Option, none, some, List, if◌then◌else◌, eqb, length, arith,
}

abbrev pub unary : ℕ → String → String
unary zero s = "b" ∷ s
unary (suc n) s = "a" ∷ unary n s

abbrev pub cons_some : ℕ → Option (List ℕ) → Option (List ℕ)
cons_some n none = none
cons_some n (some ns) = some (List.◌∷◌ n ns)

abbrev pub decode_from : ℕ → String → Option (List ℕ)
decode_from n [] = some List.[]
decode_from n (c ∷ s) =
    let more = decode_from (suc n) s in
    let fresh = decode_from zero s in if eqb (code c) 97 then more else cons_some n fresh

abbrev pub marks : String → List ℕ
marks [] = List.[]
marks (c ∷ s) = let rest = marks s in if eqb (code c) 97 then rest else List.◌∷◌ 1 rest

pub decode_from-unary :
    (k n : ℕ) (s : String) → decode_from k (unary n s) ≡ cons_some (n + k) (decode_from zero s)
decode_from-unary k zero s = ground arith
decode_from-unary k (suc n) s = ground (arith, decode_from-unary (suc k) n s)

pub marks-unary : (n : ℕ) (s : String) → length (marks (unary n s)) ≡ suc (length (marks s))
marks-unary zero s = refl
marks-unary (suc n) s = marks-unary n s
