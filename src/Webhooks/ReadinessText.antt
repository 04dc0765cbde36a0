-- ===== src/Webhooks/ReadinessText.antt =====
-- strings.TrimSuffix(s, ".")
use Prim.Native.Char.{code}
use Prim.Native.String.{[], ◌∷◌}
use integration_efi.Base.{String, eqb, if◌then◌else◌, ◌==◌, ◌&&◌}

unfoldable pub without_dot : String → String
without_dot [] = []
without_dot (c ∷ s) =
    let rest = without_dot s in if eqb (code c) b'.' && s == "" then [] else c ∷ rest
