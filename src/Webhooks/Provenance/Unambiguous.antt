-- ===== src/Webhooks/Provenance/Unambiguous.antt =====
-- What the decoder of webhook_page_provenance.go lets through.
use integration_efi.Base.{
  ℕ, suc, ◌+◌, ◌≤◌, max, ◌≡◌, ◌≢◌, ◌↔◌, refl, String, some, true, false, List, [], ◌∷◌, arith, ◌==◌,
  eq_iff, any, All, and_intro, inl, inr, Bool-cases, leb,
}
use integration_efi.Value.{Json, Jsons, Members, empty, item, closed, member, Fields, to_fields}
use integration_efi.World.{World}
use integration_efi.Webhooks.Provenance.{scan, scan_items, scan_members, decode_observation}

-- The height of a document: a scalar has one level, a container one more than what it holds.
unfoldable mutual
  pub levels : Json → ℕ
  levels (Json.array js) = suc (levels_items js)
  levels (Json.object ms) = suc (levels_members ms)
  levels _ = 1

  pub levels_items : Jsons → ℕ
  levels_items empty = 0
  levels_items (item j js) = max (levels j) (levels_items js)

  pub levels_members : Members → ℕ
  levels_members closed = 0
  levels_members (member k j ms) = max (levels j) (levels_members ms)

-- No name is the same as an earlier one.
abbrev pub Apart : List String → List String → Type 0
Apart seen [] = Unit
Apart seen (k ∷ ks) = All (λ s. s ≢ k) seen × Apart (k ∷ seen) ks

-- A document that is an object.
abbrev pub IsObject : Json → Type 0
IsObject j = (ms : Members) × (j ≡ Json.object ms)

module _ (w : World) where
  abbrev pub folded_names : Members → List String
  folded_names closed = []
  folded_names (member k j ms) = w.to_lower k ∷ folded_names ms

  -- In every object of the document the member names differ by more than case.
  unfoldable mutual
    pub Unambiguous : Json → Type 0
    Unambiguous (Json.array js) = UnambiguousItems js
    Unambiguous (Json.object ms) = Apart [] (folded_names ms) × UnambiguousMembers ms
    Unambiguous _ = Unit

    pub UnambiguousItems : Jsons → Type 0
    UnambiguousItems empty = Unit
    UnambiguousItems (item j js) = Unambiguous j × UnambiguousItems js

    pub UnambiguousMembers : Members → Type 0
    UnambiguousMembers closed = Unit
    UnambiguousMembers (member k j ms) = Unambiguous j × UnambiguousMembers ms

  new_name_iff :
      (seen : List String) (name : String)
      → (any (λ s. s == name) seen ≡ false) ↔ All (λ s. s ≢ name) seen
  new_name_iff [] name = (λ _. tt, λ _. refl)
  new_name_iff (s ∷ seen) name =
      let (to, from) = new_name_iff seen name in
      (
        λ h. (λ e. ground (arith, eq_iff s name), to (ground (arith, Bool-cases (s == name)))),
        λ p. ground (arith, eq_iff s name, from p.1, p.0),
      )

  mutual
    unfolding scan levels Unambiguous

    scan_sound :
        (depth : ℕ) (j : Json) → scan w depth j ≡ true → (depth + levels j ≤ 33) × Unambiguous j
    scan_sound depth Json.null h = (ground arith, tt)
    scan_sound depth (Json.bool b) h = (ground arith, tt)
    scan_sound depth (Json.number x) h = (ground arith, tt)
    scan_sound depth (Json.string s) h = (ground arith, tt)
    scan_sound depth (Json.array js) h =
        let (a, b) = scan_items_sound (suc depth) js (ground arith) (ground arith) in
        (ground arith, b)
    scan_sound depth (Json.object ms) h =
        let (a, b, c) = scan_members_sound (suc depth) [] ms (ground arith) (ground arith) in
        (ground arith, (b, c))

    scan_items_sound :
        (depth : ℕ) (js : Jsons)
        → depth ≤ 33
        → scan_items w depth js ≡ true
        → (depth + levels_items js ≤ 33) × UnambiguousItems js
    scan_items_sound depth empty fits h = (ground arith, tt)
    scan_items_sound depth (item j js) fits h =
        let (a, b) = scan_sound depth j (ground arith) in
        let (c, d) = scan_items_sound depth js fits (ground arith) in (ground arith, (b, d))

    scan_members_sound :
        (depth : ℕ) (seen : List String) (ms : Members)
        → depth ≤ 33
        → scan_members w depth seen ms ≡ true
        → (depth + levels_members ms ≤ 33) × Apart seen (folded_names ms) × UnambiguousMembers ms
    scan_members_sound depth seen closed fits h = (ground arith, tt, tt)
    scan_members_sound depth seen (member k j ms) fits h =
        let (a, b) = scan_sound depth j (ground arith) in
        let (c, d, e) = scan_members_sound depth (w.to_lower k ∷ seen) ms fits (ground arith) in
        (
          ground arith,
          (
            (new_name_iff seen (w.to_lower k)).0
                (ground (arith, Bool-cases (any (λ s. s == w.to_lower k) seen))),
            d,
          ),
          (b, e),
        )

  leb_intro : (a b : ℕ) → a ≤ b → leb a b ≡ true
  leb_intro a b h = ground arith

  mutual
    unfolding scan levels Unambiguous

    scan_complete :
        (depth : ℕ) (j : Json) → depth + levels j ≤ 33 → Unambiguous j → scan w depth j ≡ true
    scan_complete depth Json.null fits u = ground arith
    scan_complete depth (Json.bool b) fits u = ground arith
    scan_complete depth (Json.number x) fits u = ground arith
    scan_complete depth (Json.string s) fits u = ground arith
    scan_complete depth (Json.array js) fits u =
        and_intro _ _ (leb_intro _ _ (omega arith))
          (scan_items_complete (suc depth) js (omega arith) u)
    scan_complete depth (Json.object ms) fits (apart, u) =
        and_intro _ _ (leb_intro _ _ (omega arith))
          (scan_members_complete (suc depth) [] ms (omega arith) apart u)

    scan_items_complete :
        (depth : ℕ) (js : Jsons)
        → depth + levels_items js ≤ 33
        → UnambiguousItems js
        → scan_items w depth js ≡ true
    scan_items_complete depth empty fits u = refl
    scan_items_complete depth (item j js) fits (a, b) =
        and_intro _ _ (scan_complete depth j (omega arith) a)
          (scan_items_complete depth js (omega arith) b)

    scan_members_complete :
        (depth : ℕ) (seen : List String) (ms : Members)
        → depth + levels_members ms ≤ 33
        → Apart seen (folded_names ms)
        → UnambiguousMembers ms
        → scan_members w depth seen ms ≡ true
    scan_members_complete depth seen closed fits apart u = refl
    scan_members_complete depth seen (member k j ms) fits (is_new, apart) (a, b) =
        and_intro _ _
          (and_intro _ _ (rw ((new_name_iff seen (w.to_lower k)).1 is_new))
            (scan_complete depth j (omega arith) a))
          (scan_members_complete depth (w.to_lower k ∷ seen) ms (omega arith) apart b)

  accepted_iff :
      (ms : Members) (m : Fields)
      → (decode_observation w (Json.object ms) ≡ some m) ↔ (
          (levels (Json.object ms) ≤ 33)
          × Unambiguous (Json.object ms)
          × (to_fields (Json.object ms) ≡ some m))
  unfolding decode_observation
  accepted_iff ms m = (
    λ e. elim (Bool-cases (scan w 0 (Json.object ms))) [
      | inl fine ↦
          let (fits, apart) = scan_sound 0 (Json.object ms) fine in
          (omega (arith, fits), apart, rw fine at e)
      | inr bad ↦ cc (rw bad at e)
    ],
    λ p. rw (scan_complete 0 (Json.object ms) (omega (arith, p.0)) p.1) p.2,
  )

  -- The decoder accepts exactly the documents that are objects of at most 33 levels in which no two
  -- members of one object have names that are equal but for case, and reads those as json.Unmarshal does.
  pub decode_observation-eq :
      (j : Json) (m : Fields)
      → (decode_observation w j ≡ some m)
        ↔ (IsObject j × (levels j ≤ 33) × Unambiguous j × (to_fields j ≡ some m))
  unfolding decode_observation
  decode_observation-eq (Json.object ms) m =
      let (to, from) = accepted_iff ms m in
      (
        λ e. let (fits, apart, same) = to e in ((ms, refl), fits, apart, same),
        λ p. let (is_object, fits, apart, same) = p in from (fits, apart, same),
      )
  decode_observation-eq Json.null m = (λ e. cc e, λ p. cc p.0.1)
  decode_observation-eq (Json.bool b) m = (λ e. cc e, λ p. cc p.0.1)
  decode_observation-eq (Json.number x) m = (λ e. cc e, λ p. cc p.0.1)
  decode_observation-eq (Json.string s) m = (λ e. cc e, λ p. cc p.0.1)
  decode_observation-eq (Json.array js) m = (λ e. cc e, λ p. cc p.0.1)
