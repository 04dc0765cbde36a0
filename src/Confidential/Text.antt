-- ===== src/Confidential/Text.antt =====
-- strings.Split at a character.
use Prim.Native.Char.{code}
use Prim.Native.String
use Prim.Native.String.{[], ◌∷◌}
use integration_efi.Base.{ℕ, String, List, eqb, if◌then◌else◌}

-- A character in front of the first part.
abbrev onto_first : String → List String → List String
onto_first c List.[] = List.◌∷◌ c List.[]
onto_first c (List.◌∷◌ s ss) = List.◌∷◌ (String.◌++◌ c s) ss

unfoldable pub parts_of : ℕ → String → List String
parts_of sep [] = List.◌∷◌ "" List.[]
parts_of sep (c ∷ s) =
    let rest = parts_of sep s in
    if eqb (code c) sep then List.◌∷◌ "" rest else onto_first (c ∷ []) rest
