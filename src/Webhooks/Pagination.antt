-- ===== src/Webhooks/Pagination.antt =====
-- The input side of observe_webhook_subscriptions.go: page numbers, sizes and the time range.
pub mod Denoted
pub mod Bounds
use integration_efi.Base.{
  ℕ, ◌+◌, ◌^◌, String, Bool, true, false, ◌&&◌, ◌||◌, not, Option, none, some, List, [], ◌∷◌,
  Outcome, ok, err, ◌==◌, ◌<>◌, if◌then◌else◌, trim_space, itoa, itoa_ℕ, atoi, ltb, ltb_ℤ, leb_ℤ,
  next, ℤ, pos, any, is_none,
}
use integration_efi.Value.{
  Value, null, int, int64, float64, number, string, Fields, Float, get, has, is_whole, above, below,
  truncated, fits_int, string_at, text_at, value_at, object_at, or_end,
}
use integration_efi.World.{World}
use integration_efi.Api.{Error, plain, wrap, labelled}

abbrev not_integer : Outcome Error ℤ
not_integer = err (plain "must be an integer")

abbrev integer_or : Option ℤ → Outcome Error ℤ
integer_or none = not_integer
integer_or (some n) = ok n

-- The type switch of parsePaginationInteger. The bounds of an int64 are those of an int. The
-- constant float64(^uint(0)>>1) is 2^63, and -2^63 - 1 rounds to -2^63.
unfoldable pub page_number : World → Value → Outcome Error ℤ
page_number w (int n) = ok n
page_number w (int64 n) = ok n
page_number w (float64 x) =
    if not (is_whole x) || above x (2 ^ 63) || below x (2 ^ 63)
    then not_integer
    else ok (if fits_int x then truncated x else w.unfit_int x)
page_number w (number s) = integer_or (atoi s)
page_number w (string s) = integer_or (atoi (trim_space s))
page_number w _ = not_integer

-- The bounds of parsePaginationInteger; 0 for no upper bound.
unfoldable pub in_bounds : ℕ → ℕ → ℤ → Outcome Error ℤ
in_bounds low high n =
    if ltb_ℤ n (pos low)
    then err (plain ("must be at least " <> itoa_ℕ low))
    else if ltb 0 high && ltb_ℤ (pos high) n
    then err (plain ("must be at most " <> itoa_ℕ high))
    else ok n

-- parsePaginationInteger
unfoldable pub parse_pagination_integer : World → Value → ℕ → ℕ → Outcome Error ℤ
parse_pagination_integer w v low high = elim (page_number w v) [
  | err e ↦ err e
  | ok n ↦ in_bounds low high n
]

-- paginationInput: no value for a missing key
unfoldable pub pagination_input : World → Fields → String → ℕ → ℕ → Outcome Error (Option ℤ)
pagination_input w input k low high = elim (get input k) [
  | none ↦ ok none
  | some v ↦ elim (parse_pagination_integer w v low high) [
    | err e ↦ err (wrap k e)
    | ok n ↦ ok (some n)
  ]
]

-- hasAnyInput
unfoldable pub has_any_input : Fields → List String → Bool
has_any_input input keys = any (λ k. has input k) keys

-- The order of the two times of webhookTimeRange.
unfoldable pub ordered_range : World → String → String → Outcome Error (String × String)
ordered_range w inicio fim = elim (w.parse_rfc3339 inicio) [
  | none ↦ err (plain "inicio must be RFC3339")
  | some start ↦ elim (w.parse_rfc3339 fim) [
    | none ↦ err (plain "fim must be RFC3339")
    | some stop ↦
        if ltb stop start
        then err (plain "fim must be greater than or equal to inicio")
        else ok (inicio, fim)
  ]
]

-- webhookTimeRange
unfoldable pub webhook_time_range : World → Fields → Outcome Error (String × String)
webhook_time_range w input =
    let inicio = trim_space (text_at input "inicio") in
    let fim = trim_space (text_at input "fim") in
    if is_none (string_at input "inicio")
      || is_none (string_at input "fim")
      || inicio == ""
      || fim == ""
    then err (plain "requires either {chave} or {inicio, fim}")
    else ordered_range w inicio fim

-- nextWebhookPageCursor: reading through a nil map finds nothing
unfoldable pub next_webhook_page_cursor : World → Fields → String
next_webhook_page_cursor w resp =
    let pagination = or_end (object_at (or_end (object_at resp "parametros")) "paginacao") in
    elim (parse_pagination_integer w (value_at pagination "paginaAtual") 0 0) [
      | err e ↦ ""
      | ok current ↦
          elim (parse_pagination_integer w (value_at pagination "quantidadeDePaginas") 0 0) [
            | err e ↦ ""
            | ok total ↦ if leb_ℤ total (next current) then "" else itoa (next current)
          ]
    ]
