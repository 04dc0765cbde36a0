-- ===== src/Surface/Queries/Disclosure.antt =====
-- What the projection of a charge lets a surface see.
use integration_efi.Base.{
  inl, inr, Option-cases, ◌≡◌, refl, sym, ◌∙◌, ap, none, some, List, [], ◌∷◌, ◌++◌, map, arith,
}
use integration_efi.Value.{Fields, get, text_at, value_at, object_at, or_end, as_array, members_of}
use integration_efi.Surface.Project.{
  project_charge, project_charge_detail, project_devolucoes, project_devolucao, leg_devolucoes,
  legs_devolucoes, charge_valor, charge_expiracao,
}

abbrev pub calendario_of : Fields → Fields
calendario_of m = or_end (object_at m "calendario")

-- Two refunds that agree in what the surface may see.
pub record AlikeDevolucao (m n : Fields) : Type 0 where
  pub id : text_at m "id" ≡ text_at n "id"
  pub valor : value_at m "valor" ≡ value_at n "valor"
  pub status : text_at m "status" ≡ text_at n "status"
  pub horario :
      text_at (or_end (object_at m "horario")) "solicitacao"
      ≡ text_at (or_end (object_at n "horario")) "solicitacao"

pub data AlikeDevolucoes : List Fields → List Fields → Type 0 where
  done : AlikeDevolucoes [] []
  more :
      {m n : Fields} {ms ns : List Fields}
      → AlikeDevolucao m n
      → AlikeDevolucoes ms ns
      → AlikeDevolucoes (m ∷ ms) (n ∷ ns)

-- The refunds of a leg, of the legs, and of a charge.
abbrev pub refunds_of : Fields → List Fields
refunds_of leg = elim (as_array (value_at leg "devolucoes")) [ none ↦ [] | some vs ↦ members_of vs ]

abbrev pub refunds_of_legs : List Fields → List Fields
refunds_of_legs [] = []
refunds_of_legs (leg ∷ legs) = refunds_of leg ++ refunds_of_legs legs

abbrev pub all_refunds : Fields → List Fields
all_refunds m = elim (as_array (value_at m "pix")) [
  | none ↦ []
  | some vs ↦ refunds_of_legs (members_of vs)
]

-- Two charges that agree in what the surface may see: the payer, the key, the other members of
-- the calendar, and the legs' end-to-end ids may differ.
pub record Alike (m n : Fields) : Type 0 where
  pub txid : text_at m "txid" ≡ text_at n "txid"
  pub status : text_at m "status" ≡ text_at n "status"
  pub valor : value_at m "valor" ≡ value_at n "valor"
  pub expiracao : get (calendario_of m) "expiracao" ≡ get (calendario_of n) "expiracao"
  pub due : get (calendario_of m) "dataDeVencimento" ≡ get (calendario_of n) "dataDeVencimento"
  pub due_short : get (calendario_of m) "vencimento" ≡ get (calendario_of n) "vencimento"
  pub created : text_at (calendario_of m) "criacao" ≡ text_at (calendario_of n) "criacao"
  pub refunds : AlikeDevolucoes (all_refunds m) (all_refunds n)

devolucao-alike : (m n : Fields) → AlikeDevolucao m n → project_devolucao m ≡ project_devolucao n
unfolding project_devolucao
devolucao-alike m n a = rw (a.id, a.valor, a.status, a.horario) refl

devolucoes-alike :
    (ms ns : List Fields)
    → AlikeDevolucoes ms ns
    → map project_devolucao ms ≡ map project_devolucao ns
devolucoes-alike [] [] done = refl
devolucoes-alike [] (n ∷ ns) a = elim a [ ]
devolucoes-alike (m ∷ ms) [] a = elim a [ ]
devolucoes-alike (m ∷ ms) (n ∷ ns) (more a rest) =
    cc (devolucao-alike m n a, devolucoes-alike ms ns rest)

map-append : {A B : Type 0} (f : A → B) (xs ys : List A) → map f (xs ++ ys) ≡ map f xs ++ map f ys
map-append f [] ys = refl
map-append f (x ∷ xs) ys = ap (λ zs. f x ∷ zs) (map-append f xs ys)

leg-refunds : (leg : Fields) → leg_devolucoes leg ≡ map project_devolucao (refunds_of leg)
unfolding leg_devolucoes
leg-refunds leg = ground arith

legs-refunds :
    (legs : List Fields) → legs_devolucoes legs ≡ map project_devolucao (refunds_of_legs legs)
unfolding legs_devolucoes
legs-refunds [] = refl
legs-refunds (leg ∷ legs) = cc (
  leg-refunds leg,
  legs-refunds legs,
  map-append project_devolucao (refunds_of leg) (refunds_of_legs legs),
)

charge-refunds : (m : Fields) → project_devolucoes m ≡ map project_devolucao (all_refunds m)
unfolding project_devolucoes
charge-refunds m = elim (Option-cases (as_array (value_at m "pix"))) [
  | inl missing ↦ ground (arith, missing)
  | inr (vs, found) ↦ ground (arith, found, legs-refunds (members_of vs))
]

charge-Alike : (m n : Fields) → Alike m n → project_charge m ≡ project_charge n
unfolding project_charge charge_valor
charge-Alike m n a = cc (a.txid, a.status, a.valor, a.due, a.due_short, a.created)

expiracao-Alike :
    (m n : Fields)
    → Alike m n
    → charge_expiracao (calendario_of m) ≡ charge_expiracao (calendario_of n)
unfolding charge_expiracao
expiracao-Alike m n a = cc (a.expiracao, a.due, a.due_short)

-- The detail of a charge discloses its txid, status, value, four dates and refunds, and nothing
-- else: charges that agree in those project to the same detail, so whatever else the provider
-- answered (the payer, the Pix key, an end-to-end id) leaves no trace in it.
pub project_charge_detail-Alike :
    (m n : Fields) → Alike m n → project_charge_detail m ≡ project_charge_detail n
unfolding project_charge_detail
project_charge_detail-Alike m n a =
    let rows : project_devolucoes m ≡ project_devolucoes n =
      charge-refunds m
      ∙ devolucoes-alike (all_refunds m) (all_refunds n) a.refunds
      ∙ sym (charge-refunds n) in
    rw (charge-Alike m n a, expiracao-Alike m n a, rows) refl
