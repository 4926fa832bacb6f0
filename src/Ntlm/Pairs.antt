-- ===== src/Ntlm/Pairs.antt =====
-- Writing a list of AV pairs and reading it.
use gosamba.Prelude.{
  ℕ, zero, suc, ◌+◌, ◌≤◌, ◌<◌, ◌≡◌, refl, ap, ◌∙◌, ltb, ◌==◌, false, List, [], ◌∷◌, ◌++◌, length,
  take, drop, All, some, arith, length-append, take-length_append, drop-length_append, append_assoc,
}
use gosamba.Wire.{le16}
use gosamba.Ntlm.{AvPair, encode_av_list, word_at, and_pair, av_loop, decode_av_list}

-- A pair that the format can carry: an id of 16 bits that is not the end, and a value of 16-bit length.
abbrev pub Fits : AvPair → Type 0
Fits p = (0 < p.id) × (p.id < 65536) × (length p.value < 65536)

-- One pair in front of a rest.
pair_step :
    (p : AvPair) (rest : List ℕ) (fuel : ℕ)
    → Fits p
    → av_loop (suc fuel) (le16 p.id ++ (le16 (length p.value) ++ (p.value ++ rest)))
      ≡ and_pair p (av_loop fuel rest)
unfolding av_loop
pair_step p rest fuel (some_id, id_fits, value_fits) =
    let b = le16 p.id ++ (le16 (length p.value) ++ (p.value ++ rest)) in
    let l : word_at 2 b ≡ length p.value = omega arith in
    let id : word_at 0 b ≡ p.id = omega arith in
    let value : take (word_at 2 b) (drop 4 b) ≡ p.value =
      rw l (take-length_append (length p.value) p.value rest refl) in
    let four : 4 + word_at 2 b ≡ suc (suc (suc (suc (length p.value)))) = omega (arith, l) in
    let behind : drop (4 + word_at 2 b) b ≡ rest =
      ap (λ n. drop n b) four ∙ drop-length_append (length p.value) p.value rest refl in
    let read : record { id = word_at 0 b; value = take (word_at 2 b) (drop 4 b) } ≡ p =
      λ i. record { id = id i; value = value i } in
    let size = length-append p.value rest in
    let long : ltb (length b) 4 ≡ false = ground arith in
    let more : (word_at 0 b == 0) ≡ false = ground (arith, id) in
    let room : ltb (length b) (4 + word_at 2 b) ≡ false = ground (arith, l, size) in
    rw long (rw more (rw room ((λ i. and_pair (read i) (av_loop fuel (behind i))))))

av_loop-encode :
    (pairs : List AvPair) (rest : List ℕ) (fuel : ℕ)
    → All Fits pairs
    → length pairs < fuel
    → av_loop fuel (encode_av_list pairs ++ rest) ≡ some pairs
unfolding encode_av_list av_loop
av_loop-encode pairs rest zero w h = absurd (omega arith)
av_loop-encode [] rest (suc fuel) w h = ground arith
av_loop-encode (p ∷ pairs) rest (suc fuel) w h =
    let enc = encode_av_list pairs in
    let value_first = append_assoc p.value enc rest in
    ap (λ t. av_loop (suc fuel) (le16 p.id ++ (le16 (length p.value) ++ t))) value_first
    ∙ pair_step p (enc ++ rest) fuel w.0
    ∙ ap (and_pair p) (av_loop-encode pairs rest fuel w.1 (omega arith))

length-pairs : (pairs : List AvPair) → length pairs ≤ length (encode_av_list pairs)
unfolding encode_av_list
length-pairs [] = omega arith
length-pairs (p ∷ pairs) =
    omega (arith, length-pairs pairs, length-append p.value (encode_av_list pairs))

-- Where every pair has an id of 16 bits other than the end's and a value of 16-bit length, reading
-- what EncodeAVList wrote, with anything behind it, gives the pairs back.
pub decode_av_list-encode :
    (pairs : List AvPair) (rest : List ℕ)
    → All Fits pairs
    → decode_av_list (encode_av_list pairs ++ rest) ≡ some pairs
unfolding decode_av_list
decode_av_list-encode pairs rest w =
    av_loop-encode pairs rest (suc (length (encode_av_list pairs ++ rest))) w
      (omega (arith, length-pairs pairs, length-append (encode_av_list pairs) rest))
