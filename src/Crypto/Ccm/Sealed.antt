-- ===== src/Crypto/Ccm/Sealed.antt =====
-- Sealing and opening with CCM, and the AEAD that it gives to the transform frames.
use gosamba.Prelude.{
  ℕ, zero, suc, ◌+◌, ◌-◌, ◌*◌, ◌/◌, ◌≡◌, ◌↔◌, refl, true, false, ◌==◌, ltb, List, [], ◌∷◌, length,
  take, drop, arith, length-take, length-append, take-length_append, drop-length_append,
  take-append-drop, bit_xor, bit_or, inl, inr, Bool-cases,
}
use gosamba.Prelude.Bits.{bit_xor_self, eq_of_bit_xor, zero_of_bit_or}
use gosamba.Crypto.Cmac.{xor_bytes}
use gosamba.Crypto.Ccm.{
  counter_block, ctr_xor, ctr_encrypt_tag, compute_tag, differences, ct_eq, seal, open_, new_ccm,
  absorb_plaintext, absorb_aad, absorb, first_block,
}
use gosamba.Crypto.Ccm.Counter.{length-xor_bytes, length-ctr_xor, ctr_xor_twice}
use gosamba.Crypto.Transform.RoundTrip.{IsAead}

differences_self : (xs : List ℕ) → differences 0 xs xs ≡ 0
unfolding differences
differences_self [] = refl
differences_self (x ∷ xs) = rw (bit_xor_self x) (differences_self xs)

eq_of_differences :
    (v : ℕ) (xs ys : List ℕ) → length xs ≡ length ys → differences v xs ys ≡ 0 → (v ≡ 0) × (xs ≡ ys)
unfolding differences
eq_of_differences v [] [] l h = (h, refl)
eq_of_differences v [] (y ∷ ys) l h = absurd (omega arith)
eq_of_differences v (x ∷ xs) [] l h = absurd (omega arith)
eq_of_differences v (x ∷ xs) (y ∷ ys) l h =
    let (z, e) = eq_of_differences (bit_or v (bit_xor x y)) xs ys (omega arith) h in
    let (zv, zx) = zero_of_bit_or v (bit_xor x y) z in
    let same : x ≡ y = eq_of_bit_xor x y zx in (zv, rw (same, e) refl)

-- The comparison in constant time decides equality.
pub ct_eq_iff : (a b : List ℕ) → (ct_eq a b ≡ true) ↔ (a ≡ b)
unfolding ct_eq
ct_eq_iff a b = (there a b, λ e. rw e (back b))
  where
    there : (a b : List ℕ) → ct_eq a b ≡ true → a ≡ b
    there a b h =
        let l : length a ≡ length b = ground arith in
        let d : differences 0 a b ≡ 0 = ground arith in (eq_of_differences 0 a b l d).1

    back : (b : List ℕ) → ct_eq b b ≡ true
    back b = ground (arith, differences_self b)

module _ (encrypt : List ℕ → List ℕ) (sized : (b : List ℕ) → length (encrypt b) ≡ 16) where
  length-absorb : (n : ℕ) (mac s : List ℕ) → length mac ≡ 16 → length (absorb encrypt n mac s) ≡ 16
  unfolding absorb
  length-absorb zero mac s h = h
  length-absorb (suc n) mac s h = length-absorb n _ (drop 16 s) (sized _)

  length-absorb_aad :
      (mac aad : List ℕ) → length mac ≡ 16 → length (absorb_aad encrypt mac aad) ≡ 16
  unfolding absorb_aad
  length-absorb_aad mac aad h = elim (Bool-cases (ltb 0 (length aad))) [
    | inl e ↦ rw e (length-absorb _ mac _ h)
    | inr e ↦ rw e h
  ]

  length-absorb_plaintext :
      (mac p : List ℕ) → length mac ≡ 16 → length (absorb_plaintext encrypt mac p) ≡ 16
  unfolding absorb_plaintext
  length-absorb_plaintext mac p h = elim (Bool-cases (ltb 0 (length p - length p / 16 * 16))) [
    | inl e ↦ rw e (sized _)
    | inr e ↦ rw e (length-absorb _ mac p h)
  ]

  length-compute_tag : (nonce p aad : List ℕ) → length (compute_tag encrypt nonce p aad) ≡ 16
  unfolding compute_tag
  length-compute_tag nonce p aad =
      length-absorb_plaintext _ p
        (length-absorb_aad _ aad (sized (first_block nonce (length p) (length aad))))

  tag_length :
      (nonce p aad : List ℕ)
      → length (take 16 (ctr_encrypt_tag encrypt nonce (compute_tag encrypt nonce p aad))) ≡ 16
  unfolding ctr_encrypt_tag
  tag_length nonce p aad =
      let tag = compute_tag encrypt nonce p aad in
      let ks = encrypt (counter_block nonce 0) in
      omega (
        arith,
        length-take 16 (xor_bytes (take 16 tag) ks),
        length-xor_bytes (take 16 tag) ks,
        length-take 16 tag,
        length-compute_tag nonce p aad,
        sized (counter_block nonce 0),
      )

  pub length-seal : (nonce p aad : List ℕ) → length (seal encrypt nonce p aad) ≡ length p + 16
  unfolding seal
  length-seal nonce p aad = omega (
    arith,
    length-append (ctr_xor encrypt nonce p)
        (take 16 (ctr_encrypt_tag encrypt nonce (compute_tag encrypt nonce p aad))),
    length-ctr_xor encrypt sized nonce p,
    tag_length nonce p aad,
  )

  open-seal :
      (nonce p aad : List ℕ)
      → length nonce ≡ 11
      → open_ encrypt nonce (seal encrypt nonce p aad) aad ≡ inr p
  unfolding open_
  open-seal nonce p aad e =
      let tag = take 16 (ctr_encrypt_tag encrypt nonce (compute_tag encrypt nonce p aad)) in
      let l : length (seal encrypt nonce p aad) - 16 ≡ length p =
        omega (arith, length-seal nonce p aad) in
      let eleven : (length nonce == 11) ≡ true = ground arith in
      let long : ltb (length (seal encrypt nonce p aad)) 16 ≡ false =
        ground (arith, length-seal nonce p aad) in
      let body : take (length p) (seal encrypt nonce p aad) ≡ ctr_xor encrypt nonce p =
        unfold seal in
        take-length_append (length p) (ctr_xor encrypt nonce p) tag
          (length-ctr_xor encrypt sized nonce p) in
      let rest : drop (length p) (seal encrypt nonce p aad) ≡ tag =
        unfold seal in
        drop-length_append (length p) (ctr_xor encrypt nonce p) tag
          (length-ctr_xor encrypt sized nonce p) in
      rw
        (
          eleven,
          long,
          l,
          body,
          rest,
          ctr_xor_twice encrypt sized nonce p,
          (ct_eq_iff tag tag).1 refl,
        )
        refl

  seal-of_open :
      (nonce ct aad p : List ℕ) → open_ encrypt nonce ct aad ≡ inr p → seal encrypt nonce p aad ≡ ct
  unfolding open_
  seal-of_open nonce ct aad p h =
      let n = length ct - 16 in
      let tag = take 16 (
        ctr_encrypt_tag encrypt nonce
          (compute_tag encrypt nonce (ctr_xor encrypt nonce (take n ct)) aad)) in
      elim (Bool-cases (ct_eq (drop n ct) tag)) [
        | inr no_ ↦ absurd (ground arith)
        | inl same ↦
            let pt : ctr_xor encrypt nonce (take n ct) ≡ p = ground arith in
            let tags : drop n ct ≡ tag = (ct_eq_iff (drop n ct) tag).0 same in
            let whole : seal encrypt nonce (ctr_xor encrypt nonce (take n ct)) aad ≡ ct =
              unfold seal in
              rw (← tags, ctr_xor_twice encrypt sized nonce (take n ct)) (take-append-drop n ct) in
            rw (← pt) whole
      ]

  -- For a block cipher with blocks of 16 bytes and a nonce of 11: `Open` accepts a ciphertext exactly
  -- if `Seal` makes it, under that nonce and associated data, of the plaintext that `Open` returns.
  pub open-iff-seal :
      (nonce ct aad p : List ℕ)
      → length nonce ≡ 11
      → (open_ encrypt nonce ct aad ≡ inr p) ↔ (seal encrypt nonce p aad ≡ ct)
  open-iff-seal nonce ct aad p e =
      (seal-of_open nonce ct aad p, λ h. rw (← h) (open-seal nonce p aad e))

  -- CCM gives what the transform frames ask of an AEAD.
  pub new_ccm-IsAead : IsAead (new_ccm encrypt)
  unfolding new_ccm
  new_ccm-IsAead = record {
    opens = λ nonce p aad e. rw (open-seal nonce p aad e) refl;
    adds = λ nonce p aad. length-seal nonce p aad;
  }
