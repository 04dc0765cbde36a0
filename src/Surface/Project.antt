-- ===== src/Surface/Project.antt =====
-- The projections of a charge, of its refunds and of a webhook subscription.
use mathlib.Core.Option
use integration_efi.Base.{
  String, Bool, ◌||◌, not, Option, none, some, List, [], ◌∷◌, ◌++◌, ◌==◌, if◌then◌else◌, map,
}
use integration_efi.Value.{
  Value, null, bool, string, object, objects, Fields, field, end, Values, get, put, value_at,
  text_at, object_at, or_end, as_array, as_bool, members_of, from_rows, has,
}

-- firstNonEmptyString, for two keys
unfoldable pub first_non_empty_string : Fields → String → String → String
first_non_empty_string m k j = if text_at m k == "" then text_at m j else text_at m k

-- boolFromInput
unfoldable pub bool_from_input : Fields → String → Option Bool
bool_from_input m k = as_bool (value_at m k)

-- The value of a key, or what the other keys have.
abbrev or_else {ℓ} : {A : Type ℓ} → Option A → Option A → Option A
or_else none rest = rest
or_else (some a) rest = some a

-- The mTLS indicator of a subscription: null if it has none.
unfoldable pub mtls_indicator : Fields → Value
unfolding bool_from_input
mtls_indicator m =
    elim (or_else (Option.map not (bool_from_input m "skipMtls"))
      (or_else (Option.map not (bool_from_input m "skip_mtls")) (bool_from_input m "mtls"))) [
        | none ↦ null
        | some b ↦ bool b
      ]

-- projectWebhookSubscription
unfoldable pub project_webhook_subscription : Fields → Fields
unfolding first_non_empty_string mtls_indicator
project_webhook_subscription m = field "chave" (string (text_at m "chave")) (
    field "url" (string (first_non_empty_string m "webhookUrl" "url"))
      (field "status" (string "active") (field "mtls" (mtls_indicator m) end)))

-- A charge with a due date in its calendar.
abbrev is_due : Fields → Bool
is_due calendario = has calendario "dataDeVencimento" || has calendario "vencimento"

abbrev pub plain_valor : Value → Value
plain_valor (object v) = elim (get v "original") [ none ↦ string "" | some original ↦ original ]
plain_valor null = string ""
plain_valor other = other

-- chargeValor
unfoldable pub charge_valor : Fields → Value
charge_valor m = plain_valor (value_at m "valor")

-- projectCharge
unfoldable pub project_charge : Fields → Fields
unfolding charge_valor
project_charge m =
    let calendario = or_end (object_at m "calendario") in
    field "txid" (string (text_at m "txid")) (
      field "valor" (charge_valor m) (
        field "status" (string (text_at m "status")) (
          field "tipo" (string (if is_due calendario then "cobv" else "cob"))
            (field "created" (string (text_at calendario "criacao")) end))))

abbrev or_blank : Option Value → Value
or_blank none = string ""
or_blank (some v) = v

-- chargeExpiracao
unfoldable pub charge_expiracao : Fields → Value
charge_expiracao calendario = or_blank (
    or_else (get calendario "expiracao")
      (or_else (get calendario "dataDeVencimento") (get calendario "vencimento")))

-- projectDevolucao
unfoldable pub project_devolucao : Fields → Fields
project_devolucao m = field "id" (string (text_at m "id")) (
    field "valor" (value_at m "valor") (
      field "status" (string (text_at m "status"))
        (field "created" (string (text_at (or_end (object_at m "horario")) "solicitacao")) end)))

-- The refunds of one leg; a leg without a list has none.
unfoldable pub leg_devolucoes : Fields → List Fields
leg_devolucoes leg = elim (as_array (value_at leg "devolucoes")) [
  | none ↦ []
  | some vs ↦ map project_devolucao (members_of vs)
]

unfoldable pub legs_devolucoes : List Fields → List Fields
unfolding leg_devolucoes
legs_devolucoes [] = []
legs_devolucoes (leg ∷ legs) = leg_devolucoes leg ++ legs_devolucoes legs

-- projectDevolucoes
unfoldable pub project_devolucoes : Fields → List Fields
unfolding legs_devolucoes
project_devolucoes m = elim (as_array (value_at m "pix")) [
  | none ↦ []
  | some vs ↦ legs_devolucoes (members_of vs)
]

-- projectChargeDetail
unfoldable pub project_charge_detail : Fields → Fields
unfolding charge_expiracao project_devolucoes
project_charge_detail m =
    put (put (project_charge m) "expiracao" (charge_expiracao (or_end (object_at m "calendario"))))
      "devolucoes" (objects (from_rows (project_devolucoes m)))

-- projectChargeArray, of a value that is a list
unfoldable pub project_charge_array : Values → List Fields
project_charge_array vs = map project_charge (members_of vs)
