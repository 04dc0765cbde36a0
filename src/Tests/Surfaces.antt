-- ===== src/Tests/Surfaces.antt =====
-- Examples for the surface queries.
use integration_efi.Base.{◌≡◌, refl}
use integration_efi.Value.{
  string, object, array, nil, cons, Fields, field, end, members_of, object_at, text_at,
}
use integration_efi.Surface.Project.{project_charge_detail}
use integration_efi.Surface.Queries.Disclosure.{Alike, done, project_charge_detail-Alike}

-- Two answers to the same charge, one with the payer and the key of the receiver.
abbrev bare : Fields
bare =
    field "txid" (string "tx1") (field "valor" (object (field "original" (string "10.00") end)) end)

abbrev personal : Fields
personal = field "chave" (string "key") (
    field "devedor" (object (field "cpf" (string "1") end))
      (field "pix" (array (cons (object (field "endToEndId" (string "E1") end)) nil)) bare))

alike : Alike bare personal
unfolding text_at object_at members_of
alike = record {
  txid = refl;
  status = refl;
  valor = refl;
  expiracao = refl;
  due = refl;
  due_short = refl;
  created = refl;
  refunds = done;
}

project_charge_detail-Alike_example : project_charge_detail bare ≡ project_charge_detail personal
project_charge_detail-Alike_example = project_charge_detail-Alike bare personal alike
