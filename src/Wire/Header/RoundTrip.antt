-- ===== src/Wire/Header/RoundTrip.antt =====
-- A header that is written and read back.
use gosamba.Prelude.{
  ℕ, zero, suc, ◌+◌, ◌*◌, ◌/◌, ◌%◌, ◌<◌, ◌≤◌, ◌^◌, ◌≡◌, refl, ap, ◌∙◌, false, ltb, List, [], ◌∷◌,
  length, arith, inl, inr, bit_or,
}
use gosamba.Wire.{Bytes, copy, slice, nth, uint16, uint32, uint64, Decoded}
use gosamba.Wire.Header.{
  Header, header_size, flag_async_command, decode_header, encode_header, encode_async_header,
  read_header, is_smb2,
}

pub le16-value : (v : ℕ) → v < 2 ^ 16 → v % 256 + 256 * (v / 256 % 256) ≡ v
le16-value v h = omega arith

pub le32-value :
    (v : ℕ)
    → v < 2 ^ 32
    → v % 256 + 256 * (v / 256 % 256) + 65536 * (v / 65536 % 256) + 16777216 * (v / 16777216 % 256)
      ≡ v
le32-value v h = omega arith

pub le64-value :
    (v : ℕ)
    → v < 2 ^ 64
    → (v % 256
          + 256 * (v / 256 % 256)
          + 65536 * (v / 65536 % 256)
          + 16777216 * (v / 16777216 % 256))
        + 4294967296
          * (v / 4294967296 % 256
              + 256 * (v / 1099511627776 % 256)
              + 65536 * (v / 281474976710656 % 256)
              + 16777216 * (v / 72057594037927936 % 256))
      ≡ v
le64-value v h = omega arith

-- The fields fit the widths that the Go types give them.
pub record IsHeader (h : Header) : Type 0 where
  pub credit_charge : h.credit_charge < 2 ^ 16
  pub status : h.status < 2 ^ 32
  pub command : h.command < 2 ^ 16
  pub credit_response : h.credit_response < 2 ^ 16
  pub flags : h.flags < 2 ^ 32
  pub next_command : h.next_command < 2 ^ 32
  pub message_id : h.message_id < 2 ^ 64
  pub tree_id : h.tree_id < 2 ^ 32
  pub session_id : h.session_id < 2 ^ 64
  pub signature : length h.signature ≡ 16

-- Reading back what an encoder wrote.
abbrev pub reread : Decoded Bytes → Decoded Header
reread (inl e) = inl e
reread (inr b) = decode_header b

slice-nth :
    (f : ℕ → ℕ) (k n : ℕ) (bs : List ℕ) (l : ℕ)
    → ((i : ℕ) → i < length bs → f (k + i) ≡ nth i bs)
    → length bs ≡ n
    → slice (record { len = l; at = f }) k n ≡ bs
unfolding slice
slice-nth f k zero [] l agree e = refl
slice-nth f k zero (x ∷ bs) l agree e = absurd (omega arith)
slice-nth f k (suc n) [] l agree e = absurd (omega arith)
slice-nth f k (suc n) (x ∷ bs) l agree e =
    let first : f k ≡ x = rw (← agree 0 (omega arith)) (ap f (omega arith)) in
    let rest : slice (record { len = l; at = f }) (suc k) n ≡ bs =
      slice-nth f (suc k) n bs l
        (λ i h. let e : suc k + i ≡ k + suc i = omega arith in ap f e ∙ agree (suc i) (omega arith))
        (omega arith) in
    rw (first, rest) refl

pub slice-copy : (k n : ℕ) (bs : List ℕ) (b : Bytes) → length bs ≡ n → slice (copy k bs b) k n ≡ bs
unfolding copy
slice-copy k n bs b e = slice-nth _ k n bs b.len (λ i h. ground arith) e

header_ext :
    (h g : Header)
    → h.credit_charge ≡ g.credit_charge
    → h.status ≡ g.status
    → h.command ≡ g.command
    → h.credit_response ≡ g.credit_response
    → h.flags ≡ g.flags
    → h.next_command ≡ g.next_command
    → h.message_id ≡ g.message_id
    → h.tree_id ≡ g.tree_id
    → h.session_id ≡ g.session_id
    → h.signature ≡ g.signature
    → h ≡ g
header_ext h g a b c d e f i j k l = λ t. record {
  credit_charge = a t;
  status = b t;
  command = c t;
  credit_response = d t;
  flags = e t;
  next_command = f t;
  message_id = i t;
  tree_id = j t;
  session_id = k t;
  signature = l t;
}

-- A header whose fields fit their widths, written into a buffer of at least 64 bytes, is read back
-- as it was.
pub encode_header-RoundTrip :
    (out : Bytes) (h : Header)
    → header_size ≤ out.len
    → IsHeader h
    → reread (encode_header out h) ≡ inr h
unfolding encode_header decode_header is_smb2 read_header uint16 uint32 uint64 copy
encode_header-RoundTrip out h room v =
    let ok : ltb out.len 64 ≡ false = ground arith in
    rw (ok, ok)
      (ap inr (
        header_ext _ h (le16-value h.credit_charge v.credit_charge) (le32-value h.status v.status)
          (le16-value h.command v.command) (le16-value h.credit_response v.credit_response)
          (le32-value h.flags v.flags) (le32-value h.next_command v.next_command)
          (le64-value h.message_id v.message_id) (le32-value h.tree_id v.tree_id)
          (le64-value h.session_id v.session_id)
          (unfold copy in slice-copy 48 16 h.signature _ v.signature)))

abbrev pub with_async_flag : Header → Header
with_async_flag h = record h { flags = bit_or h.flags flag_async_command }

-- The AsyncId of what an encoder wrote, at offset 32.
abbrev pub async_id_of : Decoded Bytes → ℕ
async_id_of (inl e) = 0
async_id_of (inr b) = uint64 b 32

high-value :
    (v : ℕ)
    → v < 2 ^ 64
    → v / 4294967296 % 256
        + 256 * (v / 1099511627776 % 256)
        + 65536 * (v / 281474976710656 % 256)
        + 16777216 * (v / 72057594037927936 % 256)
      ≡ v / 2 ^ 32
high-value v h = omega arith

-- An async header whose fields fit their widths, written into a buffer of at least 64 bytes, carries
-- its 64-bit AsyncId at offset 32, and is read back with the async flag set, with the upper half of
-- the AsyncId in the place of the tree id and with every other field as it was.
pub encode_async_header-RoundTrip :
    (out : Bytes) (h : Header) (async_id : ℕ)
    → header_size ≤ out.len
    → IsHeader (with_async_flag h)
    → async_id < 2 ^ 64
    → (reread (encode_async_header out h async_id)
        ≡ inr (record (with_async_flag h) { tree_id = async_id / 2 ^ 32 }))
      × (async_id_of (encode_async_header out h async_id) ≡ async_id)
unfolding encode_async_header decode_header is_smb2 read_header uint16 uint32 uint64 copy
encode_async_header-RoundTrip out h async_id room v small =
    let ok : ltb out.len 64 ≡ false = ground arith in
    (
      rw (ok, ok)
          (ap inr (
            header_ext _ (record (with_async_flag h) { tree_id = async_id / 2 ^ 32 })
              (le16-value h.credit_charge v.credit_charge) (le32-value h.status v.status)
              (le16-value h.command v.command) (le16-value h.credit_response v.credit_response)
              (le32-value (bit_or h.flags flag_async_command) v.flags)
              (le32-value h.next_command v.next_command) (le64-value h.message_id v.message_id)
              (high-value async_id small) (le64-value h.session_id v.session_id)
              (unfold copy in slice-copy 48 16 h.signature _ v.signature))),
      rw ok (le64-value async_id small),
    )
