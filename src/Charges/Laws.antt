-- ===== src/Charges/Laws.antt =====
-- Which requests the charge capabilities send, and what a deletion comes to.
use integration_efi.Base.{
  ◌≡◌, ◌≢◌, ◌⊎◌, ◌↔◌, inl, refl, String, Bool, true, false, not, none, some, [], Outcome, ok, err,
  arith, ◌<>◌, ◌==◌, eq_iff, if◌then◌else◌,
}
use integration_efi.Value.{bool, object, string, Fields, field, end, text_at, object_at, or_end}
use integration_efi.World.{World, method_put, method_post, method_patch, Request, History}
use integration_efi.Api.{Error, Exec, Context, Client, do_raw, require, plain, ◌>>◌}
use integration_efi.Api.Boundary.{request_of, IsQuiet}
use integration_efi.Api.Sends.{SendsAtMost, Reads, sending, reading}
use integration_efi.Charges.{
  create_payout, destroy_charge, settle_destroy, is_not_found, ensure_charge, charge_body,
  observe_charges, observe_charge_by_txid, observe_charges_by_range,
}

abbrev pub IsOk : Outcome Error Fields → Type 0
IsOk (ok m) = Unit
IsOk (err e) = ⊥

-- The provider answered that it knows no such resource.
abbrev pub IsAbsent : Outcome Error Fields → Type 0
IsAbsent (ok m) = ⊥
IsAbsent (err e) = is_not_found e ≡ true

settle_destroy-IsOk_iff :
    (op : String) (done : Fields) (r : Outcome Error Fields)
    → IsOk (settle_destroy op done r) ↔ (IsOk r ⊎ IsAbsent r)
unfolding settle_destroy
settle_destroy-IsOk_iff op done (ok m) = (λ u. inl u, λ u. tt)
settle_destroy-IsOk_iff op done (err e) = ground arith

demand-IsOk_iff :
    (fine : Bool) (e : Error) (m : Exec Fields) (h : History)
    → IsOk ((require fine e >> m) h).0 ↔ ((fine ≡ true) × IsOk (m h).0)
demand-IsOk_iff true e m h = (λ u. (refl, u), λ p. p.1)
demand-IsOk_iff false e m h = (λ u. absurd u, λ p. cc (p.0))

not_empty_iff : (s : String) → (not (s == "") ≡ true) ↔ (s ≢ "")
not_empty_iff s = ground (arith, eq_iff s "")

module _ (w : World) (ctx : Context) (c : Client) where
  abbrev pub payout_request : Fields → Request
  payout_request input =
      request_of w ctx c method_put ("/v3/gn/pix/" <> text_at input "idEnvio")
        (some (
          object (
            field "valor" (string (text_at input "valor")) (
              field "pagador" (object (or_end (object_at input "pagador")))
                (field "favorecido" (object (or_end (object_at input "favorecido"))) end)))))
        []

  -- A payout is sent at most once, under the caller's idEnvio, with the amount and the two parties of
  -- the input; and with an empty idEnvio or amount nothing is sent at all.
  pub create_payout-once :
      IsQuiet w ctx c
      → (input : Fields)
      → SendsAtMost (create_payout w ctx c input) (payout_request input)
        × ((text_at input "idEnvio" ≡ "") ⊎ (text_at input "valor" ≡ "")
            → (h : History) → (create_payout w ctx c input h).1 ≡ h)
  unfolding create_payout
  create_payout-once q input = (
    search sending depth 9,
    λ e h. ground (arith, eq_iff (text_at input "idEnvio") "", eq_iff (text_at input "valor") ""),
  )

  -- A charge is created by POST /v2/cob, or by PUT under the caller's txid, with the body that the
  -- input describes; at most one request is sent, and none without a Pix key.
  ensure_charge-once :
      IsQuiet w ctx c
      → (input : Fields)
      → SendsAtMost (ensure_charge w ctx c input) (
          request_of w ctx c
            (if text_at input "txid" == "" then method_post else method_put)
            (if text_at input "txid" == "" then "/v2/cob" else "/v2/cob/" <> text_at input "txid")
            (some (object (charge_body input)))
            [])
        × (text_at input "chave" ≡ "" → (h : History) → (ensure_charge w ctx c input h).1 ≡ h)
  unfolding ensure_charge
  ensure_charge-once q input =
      (search sending depth 9, λ e h. ground (arith, eq_iff (text_at input "chave") ""))

  abbrev pub destroy_call : String → Exec Fields
  destroy_call txid =
      do_raw w ctx c method_patch ("/v2/cob/" <> txid)
        (some (object (field "status" (string "REMOVIDA_PELO_USUARIO_RECEBEDOR") end))) none

  -- Deleting a charge succeeds exactly when the provider's PATCH did or answered that it knows no
  -- such charge, so a second deletion is no error; an empty txid is refused with nothing sent.
  pub destroy_charge-IsOk_iff :
      (input : Fields) (h : History)
      → let txid = text_at input "txid" in
        (IsOk (destroy_charge w ctx c input h).0
          ↔ ((txid ≢ "") × (IsOk (destroy_call txid h).0 ⊎ IsAbsent (destroy_call txid h).0)))
        × (txid ≡ "" → (destroy_charge w ctx c input h).1 ≡ h)
  unfolding destroy_charge
  destroy_charge-IsOk_iff input h =
      let txid = text_at input "txid" in
      let settled =
        settle_destroy-IsOk_iff "destroy_charge"
          (field "destroyed" (bool true) (field "txid" (string txid) end))
          (destroy_call txid h).0 in
      let (to, from) =
        demand-IsOk_iff (not (txid == "")) (plain "destroy_charge: txid is required")
          (λ j. (
            settle_destroy "destroy_charge"
                (field "destroyed" (bool true) (field "txid" (string txid) end))
                (destroy_call txid j).0,
            (destroy_call txid j).1,
          ))
          h in
      (
        (
          λ good. ((not_empty_iff txid).0 (to good).0, settled.0 (to good).1),
          λ p. from ((not_empty_iff txid).1 p.0, settled.1 p.1),
        ),
        λ e. ground (arith, eq_iff txid ""),
      )

  -- Reading charges sends at most one request, and it is a GET.
  observe_charges-Reads : IsQuiet w ctx c → (input : Fields) → Reads (observe_charges w ctx c input)
  unfolding observe_charges observe_charge_by_txid observe_charges_by_range
  observe_charges-Reads q input = search reading depth 7
