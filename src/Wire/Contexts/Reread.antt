-- ===== src/Wire/Contexts/Reread.antt =====
-- What `IterateCreateContexts` makes of what `EncodeCreateContexts` wrote.
use gosamba.Prelude.{
  ℕ, zero, suc, ◌+◌, ◌*◌, ◌/◌, ◌%◌, ◌^◌, ◌≤◌, ◌<◌, ◌≡◌, refl, ap, sym, ◌∙◌, inl, inr, true, false,
  ltb, leb, List, [], ◌∷◌, ◌++◌, length, drop, All, arith, append_assoc, append-nil, length-append,
  length-drop, take-length_append, drop-length_append, Bool-cases, ◌==◌,
}
use gosamba.Wire.{le16, le32}
use gosamba.Wire.Header.RoundTrip.{le16-value, le32-value}
use gosamba.Wire.Contexts.{
  Context, field, read_context, iterate, iterate_create_contexts, pad8, data_offset, context_body,
  encode_entry, entry_pad, entry_size, encode_create_contexts, uint16_at, uint32_at,
}

-- The numbers of the entry's header hold what they are to say.
pub record Fits (c : Context) : Type 0 where
  pub name_and_padding : data_offset c < 2 ^ 16
  pub data_length : length c.data_ < 2 ^ 32
  pub size : entry_size c < 2 ^ 32

field-here :
    (n : ℕ) (xs ys zs : List ℕ) → length ys ≡ n → field (xs ++ (ys ++ zs)) (length xs) n ≡ ys
unfolding field
field-here zero xs [] zs e = refl
field-here zero xs (y ∷ ys) zs e = absurd (omega arith)
field-here (suc n) xs ys zs e =
    let whole : leb (length xs + suc n) (length (xs ++ (ys ++ zs))) ≡ true =
      ground (arith, length-append xs (ys ++ zs), length-append ys zs) in
    let pos : ltb 0 (suc n) ≡ true = ground arith in
    rw
      (
        pos,
        whole,
        drop-length_append (length xs) xs (ys ++ zs) refl,
        take-length_append (suc n) ys zs e,
      )
      refl

small : {c : Context} → Fits c → length c.name < 2 ^ 16
unfolding data_offset
small f = omega (arith, f.name_and_padding)

heading-length : (c : Context) → 16 + length (c.name ++ pad8 (16 + length c.name)) ≡ data_offset c
unfolding data_offset
heading-length c = omega (arith, length-append c.name (pad8 (16 + length c.name)))

module _ (next : ℕ) (c : Context) (tail : List ℕ) where
  abbrev heading : List ℕ
  heading =
      le32 next
      ++ le16 16
      ++ le16 (length c.name)
      ++ (0 ∷ 0 ∷ le16 (data_offset c))
      ++ le32 (length c.data_)

  abbrev padding : List ℕ
  padding = pad8 (16 + length c.name)

  read_entry : Fits c → read_context (encode_entry next c ++ tail) ≡ c
  unfolding read_context encode_entry context_body
  read_entry f =
      let name_length : length c.name % 256 + 256 * (length c.name / 256 % 256) ≡ length c.name =
        le16-value (length c.name) (small f) in
      let all = encode_entry next c ++ tail in
      let regroup : ((c.name ++ padding) ++ c.data_) ++ tail
          ≡ c.name ++ ((padding ++ c.data_) ++ tail) =
        ap (λ x. x ++ tail) (append_assoc c.name padding c.data_)
        ∙ append_assoc c.name (padding ++ c.data_) tail in
      let regroup_data : ((c.name ++ padding) ++ c.data_) ++ tail
          ≡ (c.name ++ padding) ++ (c.data_ ++ tail) =
        append_assoc (c.name ++ padding) c.data_ tail in
      let name_len : uint16_at all 6 ≡ length c.name = name_length in
      let name_ : field all 16 (length c.name) ≡ c.name =
        ap (λ x. field (heading ++ x) 16 (length c.name)) regroup
        ∙ field-here (length c.name) heading c.name (padding ++ c.data_ ++ tail) refl in
      let data_at : uint16_at all 10 ≡ data_offset c =
        le16-value (data_offset c) f.name_and_padding in
      let data_len : uint32_at all 12 ≡ length c.data_ =
        le32-value (length c.data_) f.data_length in
      let data_here : field all (length (heading ++ c.name ++ padding)) (length c.data_) ≡ c.data_ =
        ap (λ x. field (heading ++ x) (length (heading ++ c.name ++ padding)) (length c.data_))
          regroup_data
        ∙ field-here (length c.data_) (heading ++ c.name ++ padding) c.data_ tail refl in
      let place : length (heading ++ c.name ++ padding) ≡ data_offset c =
        omega (arith, heading-length c) in
      let data_ : field all (data_offset c) (length c.data_) ≡ c.data_ =
        ap (λ n. field all n (length c.data_)) (sym place) ∙ data_here in
      let names : field all (uint16_at all 4) (uint16_at all 6) ≡ c.name =
        (λ t. field all 16 (name_len t)) ∙ name_ in
      let datas : field all (uint16_at all 10) (uint32_at all 12) ≡ c.data_ =
        (λ t. field all (data_at t) (data_len t)) ∙ data_ in
      λ t. record { name = names t; data_ = datas t }

length-encode_entry :
    (next : ℕ) (c : Context) → length (encode_entry next c) ≡ 16 + length (context_body c)
unfolding encode_entry
length-encode_entry next c = omega arith

next-value :
    (next : ℕ) (c : Context) (tail : List ℕ)
    → next < 2 ^ 32
    → uint32_at (encode_entry next c ++ tail) 0 ≡ next
unfolding encode_entry
next-value next c tail h = le32-value next h

after_entry :
    (next : ℕ) (c : Context) (tail : List ℕ)
    → drop (entry_size c) (encode_entry next c ++ entry_pad c ++ tail) ≡ tail
unfolding entry_size
after_entry next c tail =
    drop-length_append (entry_size c) (encode_entry next c ++ entry_pad c) tail
      (omega (arith, length-append (encode_entry next c) (entry_pad c), length-encode_entry next c))

iterate-encode :
    (fuel : ℕ) (cs : List Context)
    → All Fits cs
    → length (encode_create_contexts cs) ≤ fuel
    → iterate fuel (encode_create_contexts cs) ≡ cs
unfolding iterate encode_create_contexts
iterate-encode zero [] f h = refl
iterate-encode (suc fuel) [] f h = refl
iterate-encode zero (c ∷ []) f h = absurd (omega (arith, length-encode_entry 0 c))
iterate-encode (suc fuel) (c ∷ []) f h =
    let b = encode_entry 0 c in
    let long : ltb (length b) 16 ≡ false = ground (arith, length-encode_entry 0 c) in
    let whole : b ++ [] ≡ b = append-nil b in
    let last : uint32_at b 0 ≡ 0 =
      ap (λ x. uint32_at x 0) (sym whole) ∙ next-value 0 c [] (omega arith) in
    let it : read_context b ≡ c = ap read_context (sym whole) ∙ read_entry 0 c [] f.0 in
    rw (long, last, it) refl
iterate-encode zero (c ∷ d ∷ cs) f h = absurd (
    omega (
      arith,
      length-encode_entry (entry_size c) c,
      length-append (encode_entry (entry_size c) c ++ entry_pad c)
          (encode_create_contexts (d ∷ cs)),
      length-append (encode_entry (entry_size c) c) (entry_pad c),
    ))
iterate-encode (suc fuel) (c ∷ d ∷ cs) f h =
    let n = entry_size c in
    let rest = encode_create_contexts (d ∷ cs) in
    let b = encode_entry n c ++ entry_pad c ++ rest in
    let sizes : length b ≡ 16 + length (context_body c) + length (entry_pad c) + length rest =
      omega (
        arith,
        length-encode_entry n c,
        length-append (encode_entry n c ++ entry_pad c) rest,
        length-append (encode_entry n c) (entry_pad c),
      ) in
    let long : ltb (length b) 16 ≡ false = ground (arith, sizes) in
    let group : encode_entry n c ++ (entry_pad c ++ rest) ≡ b =
      sym (append_assoc (encode_entry n c) (entry_pad c) rest) in
    let more : uint32_at b 0 ≡ n =
      ap (λ x. uint32_at x 0) (sym group) ∙ next-value n c (entry_pad c ++ rest) f.0.size in
    let some_more : (n == 0) ≡ false = unfold entry_size in ground arith in
    let it : read_context b ≡ c =
      ap read_context (sym group) ∙ read_entry n c (entry_pad c ++ rest) f.0 in
    rw (long, more, some_more, it, after_entry n c rest)
      (ap (◌∷◌ c) (iterate-encode fuel (d ∷ cs) f.1 (omega (arith, sizes))))

-- Contexts whose lengths and offsets fit their fields are read back, all of them and in order, from
-- what `EncodeCreateContexts` makes of them.
pub encode_create_contexts-RoundTrip :
    (cs : List Context) → All Fits cs → iterate_create_contexts (encode_create_contexts cs) ≡ cs
unfolding iterate_create_contexts
encode_create_contexts-RoundTrip cs f =
    iterate-encode (length (encode_create_contexts cs)) cs f (omega arith)

iterate-short : (n : ℕ) (b : List ℕ) → length b < 16 → iterate n b ≡ []
unfolding iterate
iterate-short zero b h = refl
iterate-short (suc n) b h = ground arith

iterate-same : (n m : ℕ) (b : List ℕ) → length b ≤ n → length b ≤ m → iterate n b ≡ iterate m b
unfolding iterate
iterate-same zero m b h k = sym (iterate-short m b (omega arith))
iterate-same (suc n) zero b h k = iterate-short (suc n) b (omega arith)
iterate-same (suc n) (suc m) b h k = elim (Bool-cases (ltb (length b) 16)) [
  | inl short ↦ rw short refl
  | inr long ↦ elim (Bool-cases (uint32_at b 0 == 0)) [
    | inl last ↦ rw (long, last) refl
    | inr more ↦
        let on = length-drop (uint32_at b 0) b in
        let ahead : 0 < uint32_at b 0 = ground arith in
        let some_ : 16 ≤ length b = ground arith in
        rw (long, more)
          (ap (◌∷◌ (read_context b))
            (iterate-same n m (drop (uint32_at b 0) b) (omega arith) (omega arith)))
  ]
]

-- The walk over a buffer of any content ends: a bound of the buffer's length on the entries, and any
-- larger one, gives the same contexts.
pub iterate-enough : (n : ℕ) (b : List ℕ) → length b ≤ n → iterate n b ≡ iterate_create_contexts b
unfolding iterate_create_contexts
iterate-enough n b h = iterate-same n (length b) b h (omega arith)
