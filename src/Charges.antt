-- ===== src/Charges.antt =====
-- The charge capabilities: providers/efi/adapter/capabilities/{ensure_charge, ensure_due_charge,
-- destroy_charge, observe_charges, refund_charge, create_payout, handle_chargeback}.go.
pub mod Laws
pub mod Guards
use integration_efi.Base.{
  ℕ, ℤ, String, Bool, true, false, ◌&&◌, ◌||◌, not, Option, none, some, List, [], ◌∷◌, ◌++◌,
  Outcome, ok, err, ◌==◌, ◌<>◌, if◌then◌else◌, eqb, is_none, itoa, atoi,
}
use integration_efi.Value.{
  Value, null, bool, int, int64, float64, string, object, Fields, end, field, get, put, has,
  text_at, object_at, or_end, value_at, sprints_empty, copy_keys, Float, truncated, fits_int, Json,
  to_fields,
}
use integration_efi.World.{
  World, Method, method_get, method_post, method_put, method_patch, Query, History,
}
use integration_efi.Api.{
  Error, plain, ApiError, as_api, Exec, return, raise, ◌>>=◌, ◌>>◌, within, require, Context,
  Client, do_raw,
}

-- fmt.Errorf("op: text") as an early return
abbrev demand : String → Bool → String → Exec (Unit {0})
demand op fine text = require fine (plain (op <> ": " <> text))

-- v, _ := in[k].(map[string]any); v == nil || fmt.Sprint(v[field]) == ""
abbrev has_entry : Option Fields → String → Bool
has_entry none k = false
has_entry (some m) k = not (sprints_empty (value_at m k))

-- numericInt: the platform decides where a float is beyond the integers
unfoldable pub numeric_int : World → Value → Option ℤ
numeric_int w (int n) = some n
numeric_int w (int64 n) = some n
numeric_int w (float64 x) = some (if fits_int x then truncated x else w.unfit_int x)
numeric_int w (string s) = if s == "" then none else atoi s
numeric_int w _ = none

abbrev page_param : World → String → Value → Query
page_param w k v = elim (numeric_int w v) [ none ↦ [] | some n ↦ (k, itoa n ∷ []) ∷ [] ]

-- a 404 among the errors of a provider call
unfoldable pub is_not_found : Error → Bool
is_not_found e = elim (as_api e) [ none ↦ false | some a ↦ eqb a.status 404 ]

-- The outcome of a deletion: a 404 is a success with a mark of its own.
unfoldable pub settle_destroy : String → Fields → Outcome Error Fields → Outcome Error Fields
unfolding is_not_found
settle_destroy op done (ok m) = ok done
settle_destroy op done (err e) =
    if is_not_found e then ok (put done "already_absent" (bool true)) else err (Error.wrap op e)

-- The body of ensure_charge.
unfoldable pub charge_body : Fields → Fields
charge_body input =
    let body =
      field "valor" (object (or_end (object_at input "valor")))
        (field "chave" (string (text_at input "chave")) end) in
    let timed : Fields = elim (get input "expiracao") [
      | none ↦ body
      | some exp ↦ put body "calendario" (object (field "expiracao" exp end))
    ] in
    copy_keys ("devedor" ∷ "infoAdicionais" ∷ "solicitacaoPagador" ∷ []) input timed

unfoldable pub due_charge_body : Fields → Fields
due_charge_body input =
    copy_keys
      ("multa" ∷ "juros" ∷ "abatimento" ∷ "desconto" ∷ "infoAdicionais" ∷ "solicitacaoPagador" ∷ [])
      input
      (field "valor" (object (or_end (object_at input "valor"))) (
        field "chave" (string (text_at input "chave")) (
          field "calendario" (object (or_end (object_at input "calendario")))
            (field "devedor" (object (or_end (object_at input "devedor"))) end))))

-- v != nil
abbrev is_present : Value → Bool
is_present null = false
is_present _ = true

-- The test of create_payout on the receiver.
unfoldable pub names_receiver : Fields → Bool
names_receiver favorecido =
    not (sprints_empty (value_at favorecido "chave"))
    || not (sprints_empty (value_at favorecido "cpf"))
      && is_present (value_at favorecido "contaBanco")

module _ (w : World) (ctx : Context) (c : Client) where
  unfoldable pub ensure_charge : Fields → Exec Fields
  ensure_charge input = do
    demand "ensure_charge" (has_entry (object_at input "valor") "original")
        "valor.original is required"
    demand "ensure_charge" (not (text_at input "chave" == "")) "chave is required"
    let txid = text_at input "txid"
    within "ensure_charge" (
        do_raw w ctx c (if txid == "" then method_post else method_put)
          (if txid == "" then "/v2/cob" else "/v2/cob/" <> txid) (some (object (charge_body input)))
          (some to_fields))

  unfoldable pub ensure_due_charge : Fields → Exec Fields
  ensure_due_charge input = do
    demand "ensure_due_charge" (not (text_at input "txid" == ""))
        "txid is required (cobv is always idempotent)"
    demand "ensure_due_charge" (has_entry (object_at input "valor") "original")
        "valor.original is required"
    demand "ensure_due_charge" (not (text_at input "chave" == "")) "chave is required"
    demand "ensure_due_charge" (has_entry (object_at input "calendario") "dataDeVencimento")
        "calendario.dataDeVencimento is required"
    demand "ensure_due_charge" (not (is_none (object_at input "devedor")))
        "devedor is required (cpf + nome)"
    demand "ensure_due_charge" (has_entry (object_at input "devedor") "cpf")
        "devedor.cpf is required"
    demand "ensure_due_charge" (has_entry (object_at input "devedor") "nome")
        "devedor.nome is required"
    within "ensure_due_charge" (
        do_raw w ctx c method_put ("/v2/cobv/" <> text_at input "txid")
          (some (object (due_charge_body input))) (some to_fields))

  unfoldable pub destroy_charge : Fields → Exec Fields
  destroy_charge input = do
    let txid = text_at input "txid"
    demand "destroy_charge" (not (txid == "")) "txid is required"
    λ h.
        let (r, h') =
          do_raw w ctx c method_patch ("/v2/cob/" <> txid)
            (some (object (field "status" (string "REMOVIDA_PELO_USUARIO_RECEBEDOR") end))) none
            h in
        (
          settle_destroy "destroy_charge"
              (field "destroyed" (bool true) (field "txid" (string txid) end)) r,
          h',
        )

  -- observeChargeByTxid
  unfoldable pub observe_charge_by_txid : String → Exec Fields
  observe_charge_by_txid txid =
      within "observe_charges"
        (do_raw w ctx c method_get ("/v2/cob/" <> txid) none (some to_fields))

  -- observeChargesByRange
  unfoldable pub observe_charges_by_range : Fields → String → String → Exec Fields
  observe_charges_by_range input inicio fim =
      let status = text_at input "status" in
      let query =
        ("inicio", inicio ∷ [])
        ∷ ("fim", fim ∷ [])
        ∷ ((if status == "" then [] else ("status", status ∷ []) ∷ [])
            ++ (page_param w "page" (value_at input "page")
                ++ page_param w "page_size" (value_at input "page_size"))) in
      within "observe_charges"
        (do_raw w ctx c method_get ("/v2/cob?" <> w.encode_query query) none (some to_fields))

  unfoldable pub observe_charges : Fields → Exec Fields
  observe_charges input =
      let txid = text_at input "txid" in
      let inicio = text_at input "inicio" in
      let fim = text_at input "fim" in
      if not (txid == "")
      then observe_charge_by_txid txid
      else if inicio == "" || fim == ""
      then raise (plain "observe_charges: requires either {txid} or {inicio, fim}")
      else observe_charges_by_range input inicio fim

  unfoldable pub refund_charge : Fields → Exec Fields
  refund_charge input = do
    let e2e_id = text_at input "e2eId"
    let id = text_at input "id"
    let valor = text_at input "valor"
    demand "refund_charge" (not (e2e_id == "")) "e2eId is required"
    demand "refund_charge" (not (id == "")) "id is required"
    demand "refund_charge" (not (valor == "")) "valor is required"
    within "refund_charge" (
        do_raw w ctx c method_put ("/v2/pix/" <> e2e_id <> "/devolucao/" <> id)
          (some (
            object
              (copy_keys ("natureza" ∷ "descricao" ∷ []) input (field "valor" (string valor) end))))
          (some to_fields))

  unfoldable pub create_payout : Fields → Exec Fields
  create_payout input = do
    let id_envio = text_at input "idEnvio"
    let valor = text_at input "valor"
    let pagador = object_at input "pagador"
    let favorecido = object_at input "favorecido"
    demand "create_payout" (not (id_envio == "")) "idEnvio is required"
    demand "create_payout" (not (valor == "")) "valor is required"
    demand "create_payout" (has_entry pagador "chave") "pagador.chave is required"
    demand "create_payout" (not (is_none favorecido))
        "favorecido is required (chave OR cpf+contaBanco)"
    demand "create_payout" (names_receiver (or_end favorecido))
        "favorecido must have either chave OR (cpf + contaBanco)"
    within "create_payout" (
        do_raw w ctx c method_put ("/v3/gn/pix/" <> id_envio)
          (some (
            object (
              field "valor" (string valor) (
                field "pagador" (object (or_end pagador))
                  (field "favorecido" (object (or_end favorecido)) end)))))
          (some to_fields))

-- handle_chargeback calls nothing.
unfoldable pub handle_chargeback : Fields → Outcome Error Fields
handle_chargeback input =
    let e2e_id = text_at input "e2eId" in
    let chargeback_id = text_at input "chargeback_id" in
    if e2e_id == ""
    then err (plain "handle_chargeback: e2eId is required")
    else if chargeback_id == ""
    then err (plain "handle_chargeback: chargeback_id is required")
    else ok (
        field "e2eId" (string e2e_id) (
          field "chargeback_id" (string chargeback_id)
            (field "status" (value_at input "status") (field "processed" (bool true) end))))
