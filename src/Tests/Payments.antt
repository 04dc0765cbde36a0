-- ===== src/Tests/Payments.antt =====
-- Examples for the charge capabilities.
use integration_efi.Base.{◌≡◌, ◌≢◌, ◌⊎◌, ◌↔◌, refl, none, some, [], ◌<>◌}
use integration_efi.Value.{object, string, Fields, field, end, get, text_at, object_at, to_fields}
use integration_efi.World.{method_put, History}
use integration_efi.Api.{background, do_raw, within}
use integration_efi.Api.Sends.{SendsAtMost}
use integration_efi.Charges.{create_payout, destroy_charge}
use integration_efi.Charges.Laws.{
  IsOk, IsAbsent, create_payout-once, payout_request, destroy_call, destroy_charge-IsOk_iff,
}
use integration_efi.Charges.Guards.{create_payout_unnamed}
use integration_efi.Tests.{good, missing, client, background_quiet}

-- A payout whose payer and receiver are not named.
abbrev payout : Fields
payout = field "idEnvio" (string "e1") (
    field "valor" (string "10.00")
      (field "pagador" (object end) (field "favorecido" (object end) end)))

create_payout-once_example :
    SendsAtMost
      (create_payout good background client payout)
      (payout_request good background client payout)
    × ((text_at payout "idEnvio" ≡ "") ⊎ (text_at payout "valor" ≡ "")
        → (h : History) → (create_payout good background client payout h).1 ≡ h)
create_payout-once_example =
    create_payout-once good background client (background_quiet good) payout

abbrev charge : Fields
charge = field "chave" (string "key") (field "txid" (string "tx1") end)

destroy_charge-IsOk_iff_example :
    (IsOk (destroy_charge missing background client charge []).0 ↔ (
      (text_at charge "txid" ≢ "")
      × (IsOk (destroy_call missing background client (text_at charge "txid") []).0
          ⊎ IsAbsent (destroy_call missing background client (text_at charge "txid") []).0)))
    × (text_at charge "txid" ≡ "" → (destroy_charge missing background client charge []).1 ≡ [])
destroy_charge-IsOk_iff_example = destroy_charge-IsOk_iff missing background client charge []

payout_id : text_at payout "idEnvio" ≢ ""
unfolding text_at
payout_id e = cc e

payout_valor : text_at payout "valor" ≢ ""
unfolding text_at
payout_valor e = cc e

payout_payer : object_at payout "pagador" ≡ some end
unfolding object_at
payout_payer = refl

payout_receiver : object_at payout "favorecido" ≡ some end
unfolding object_at
payout_receiver = refl

no_key : get end "chave" ≡ none
unfolding get
no_key = refl

create_payout_unnamed_example :
    create_payout good background client payout []
    ≡ within "create_payout"
        (do_raw good background client method_put
          ("/v3/gn/pix/" <> text_at payout "idEnvio")
          (some (
            object (
              field "valor"
                (string (text_at payout "valor"))
                (field "pagador" (object end) (field "favorecido" (object end) end)))))
          (some to_fields))
        []
create_payout_unnamed_example =
    create_payout_unnamed good background client payout end end payout_id payout_valor payout_payer
      payout_receiver no_key no_key []
