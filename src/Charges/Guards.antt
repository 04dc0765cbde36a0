-- ===== src/Charges/Guards.antt =====
-- What the input checks of the payment capabilities let through: `fmt.Sprint(m[k]) == ""` is false
-- for a missing key, which prints as "<nil>".
use integration_efi.Base.{◌≡◌, ◌≢◌, String, true, none, some, arith, ◌<>◌, eq_iff}
use integration_efi.Value.{
  object, string, Fields, field, end, get, text_at, object_at, value_at, to_fields, sprints_empty,
}
use integration_efi.World.{World, method_put, History}
use integration_efi.Api.{Context, Client, do_raw, within}
use integration_efi.Charges.{create_payout, has_entry, names_receiver}

has_entry_missing : (m : Fields) (k : String) → get m k ≡ none → has_entry (some m) k ≡ true
unfolding value_at sprints_empty
has_entry_missing m k missing = ground arith

names_receiver_missing : (m : Fields) → get m "chave" ≡ none → names_receiver m ≡ true
unfolding names_receiver value_at sprints_empty
names_receiver_missing m missing = ground arith

-- A payout that names neither a payer key nor a receiver is not refused: with an idEnvio and an
-- amount it goes to the provider as it stands.
pub create_payout_unnamed :
    (w : World) (ctx : Context) (c : Client) (input pagador favorecido : Fields)
    → text_at input "idEnvio" ≢ ""
    → text_at input "valor" ≢ ""
    → object_at input "pagador" ≡ some pagador
    → object_at input "favorecido" ≡ some favorecido
    → get pagador "chave" ≡ none
    → get favorecido "chave" ≡ none
    → (h : History)
    → create_payout w ctx c input h
      ≡ within "create_payout"
          (do_raw w ctx c method_put
            ("/v3/gn/pix/" <> text_at input "idEnvio")
            (some (
              object (
                field "valor"
                  (string (text_at input "valor"))
                  (field "pagador" (object pagador) (field "favorecido" (object favorecido) end)))))
            (some to_fields))
          h
unfolding create_payout
create_payout_unnamed w ctx c input p f id valor is_p is_f no_payer no_receiver h =
    rw (is_p, is_f)
      (ground (
        arith,
        eq_iff (text_at input "idEnvio") "",
        eq_iff (text_at input "valor") "",
        has_entry_missing p "chave" no_payer,
        names_receiver_missing f no_receiver,
      ))
