-- ===== src/Api/Sanitize.antt =====
-- sanitizeProviderText and newEfiAPIError of providers/efi/efiapi/client.go.
use Prim.Native.Char.{code}
use Prim.Native.String.{String, [], ◌∷◌}
use integration_efi.Base.{
  ℕ, zero, suc, Bool, ◌&&◌, ◌||◌, not, List, ltb, eqb, if◌then◌else◌, ◌==◌, ◌<>◌, is_space,
  rune_count,
}
use integration_efi.World.{World}
use integration_efi.Api.Errors.{ApiError}

-- the function that strings.Map applies
abbrev is_ascii_control : ℕ → Bool
is_ascii_control c = ltb c 0x20 || eqb c 0x7f

blank_controls : String → String
blank_controls [] = []
blank_controls (c ∷ s) =
    let rest = blank_controls s in if is_ascii_control (code c) then " " <> rest else c ∷ rest

-- strings.Fields, with the field that is being read
words : String → String → List String
words held [] = if held == "" then List.[] else List.◌∷◌ held List.[]
words held (c ∷ s) =
    let rest = words (if is_space (code c) then "" else held <> (c ∷ [])) s in
    if is_space (code c) && not (held == "") then List.◌∷◌ held rest else rest

-- strings.Join(words, " ")
unwords : List String → String
unwords List.[] = ""
unwords (List.◌∷◌ w List.[]) = w
unwords (List.◌∷◌ w (List.◌∷◌ v ws)) = w <> (" " <> unwords (List.◌∷◌ v ws))

-- string(runes[:n])
unfoldable pub first_runes : ℕ → String → String
first_runes zero s = ""
first_runes (suc n) [] = []
first_runes (suc n) (c ∷ s) = c ∷ first_runes n s

unfoldable pub squeeze : String → String
unfolding blank_controls words unwords
squeeze s = unwords (words "" (blank_controls s))

unfoldable pub sanitize_provider_text : String → ℕ → String
unfolding first_runes squeeze
sanitize_provider_text s max_runes =
    let text = squeeze s in
    if ltb max_runes (rune_count text) then first_runes max_runes text <> "..." else text

unfoldable pub new_api_error : World → ℕ → String → ApiError
unfolding sanitize_provider_text
new_api_error w status static_name =
    let name = sanitize_provider_text static_name 96 in
    let message = w.status_text status in
    record {
      status = status;
      name = if name == "" then "provider_error" else name;
      message = if message == "" then "provider request failed" else message;
    }

-- (*EfiTransportError).Error
unfoldable pub transport_text : String → String
unfolding sanitize_provider_text
transport_text op =
    let operation = sanitize_provider_text op 64 in
    "efi: " <> (if operation == "" then "provider" else operation) <> " transport request failed"
