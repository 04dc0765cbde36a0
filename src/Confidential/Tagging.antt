-- ===== src/Confidential/Tagging.antt =====
-- What a tag is taken of, and texts that decode to the same key.
use integration_efi.Base.{
  ℕ, ◌/◌, ◌%◌, ◌^◌, ◌<◌, ◌≤◌, ◌≡◌, refl, sym, ap, ◌∙◌, String, Bool, true, ◌&&◌, [], ◌∷◌, ◌++◌, ok,
  eq_iff, leb→le, length, arith, Option-cases, inl, inr,
}
use integration_efi.Confidential.Data.{Bytes, Platform}
use integration_efi.Confidential.Codec.{size, big_endian, framed, tag_message, fits_frame, decode32}

big_endian_injective : (m n : ℕ) → m < 2 ^ 32 → n < 2 ^ 32 → big_endian m ≡ big_endian n → m ≡ n
unfolding big_endian
big_endian_injective m n p q h =
    let h0 : m / 2 ^ 24 % 256 ≡ n / 2 ^ 24 % 256 = cc h in
    let h1 : m / 2 ^ 16 % 256 ≡ n / 2 ^ 16 % 256 = cc h in
    let h2 : m / 2 ^ 8 % 256 ≡ n / 2 ^ 8 % 256 = cc h in
    let h3 : m % 256 ≡ n % 256 = cc h in omega (arith, h0, h1, h2, h3, p, q)

all_fit : (a b c : Bool) → (a && b && c) ≡ true → (a ≡ true) × (b ≡ true) × (c ≡ true)
all_fit a b c h = ground arith

length-big_endian : (m n : ℕ) → length (big_endian m) ≡ length (big_endian n)
unfolding big_endian
length-big_endian m n = refl

-- Lists that begin with pieces of the same length agree in the pieces and behind them.
append_injective :
    (xs ys cs ds : Bytes) → length xs ≡ length ys → xs ++ cs ≡ ys ++ ds → (xs ≡ ys) × (cs ≡ ds)
append_injective [] [] cs ds e h = (refl, h)
append_injective [] (y ∷ ys) cs ds e h = ground (arith, e)
append_injective (x ∷ xs) [] cs ds e h = ground (arith, e)
append_injective (x ∷ xs) (y ∷ ys) cs ds e h =
    let (same, rest) = append_injective xs ys cs ds (omega (arith, e)) (cc h) in
    (cc (h, same), rest)

module _ (p : Platform) (utf8_injective : (s t : String) → p.utf8 s ≡ p.utf8 t → s ≡ t) where
  framed_injective :
      (s t : String) (xs ys : Bytes)
      → fits_frame p s ≡ true
      → fits_frame p t ≡ true
      → framed p s ++ xs ≡ framed p t ++ ys
      → (s ≡ t) × (xs ≡ ys)
  unfolding framed
  framed_injective s t xs ys fs ft h =
      let bound_s : size p s ≤ 4294967295 = leb→le (size p s) 4294967295 fs in
      let bound_t : size p t ≤ 4294967295 = leb→le (size p t) 4294967295 ft in
      let (lengths, rest) =
        append_injective (big_endian (size p s)) (big_endian (size p t)) (p.utf8 s ++ xs)
          (p.utf8 t ++ ys) (length-big_endian (size p s) (size p t)) h in
      let same : size p s ≡ size p t =
        big_endian_injective (size p s) (size p t) (omega (arith, bound_s)) (omega (arith, bound_t))
          lengths in
      let (texts, behind) = append_injective (p.utf8 s) (p.utf8 t) xs ys same rest in
      (utf8_injective s t texts, behind)

  -- No two triples of a domain, an invocation and a value give Tag the same message: the frames keep
  -- the fields apart, so that a tag stands for one key or URL of one invocation only.
  tag_message_injective :
      (d e i j u v : String)
      → (fits_frame p d && fits_frame p i && fits_frame p u) ≡ true
      → (fits_frame p e && fits_frame p j && fits_frame p v) ≡ true
      → tag_message p d i u ≡ tag_message p e j v
      → (d ≡ e) × (i ≡ j) × (u ≡ v)
  unfolding tag_message
  tag_message_injective d e i j u v left right h =
      let (fits_d, fits_i, fits_u) =
        all_fit (fits_frame p d) (fits_frame p i) (fits_frame p u) left in
      let (fits_e, fits_j, fits_v) =
        all_fit (fits_frame p e) (fits_frame p j) (fits_frame p v) right in
      let (same_d, h1) = framed_injective d e _ _ fits_d fits_e h in
      let (same_i, h2) = framed_injective i j _ _ fits_i fits_j h1 in
      let (same_u, h3) = framed_injective u v [] [] fits_u fits_v (ap (λ xs. xs ++ []) h2) in
      (same_d, same_i, same_u)

module _ (p : Platform) where
  decode32_canonical : (s : String) (b : Bytes) → decode32 p s ≡ ok b → p.base64_encode b ≡ s
  unfolding decode32
  decode32_canonical s b h = elim (Option-cases (p.base64_decode s)) [
    | inl missing ↦ ground (arith, missing)
    | inr (bytes, found) ↦ ground (arith, found, eq_iff (p.base64_encode bytes) s)
  ]

  -- A key has one text only: texts that decode to the same 32 bytes are the same.
  decode32_injective :
      (s t : String) (b : Bytes) → decode32 p s ≡ ok b → decode32 p t ≡ ok b → s ≡ t
  decode32_injective s t b hs ht = sym (decode32_canonical s b hs) ∙ decode32_canonical t b ht
