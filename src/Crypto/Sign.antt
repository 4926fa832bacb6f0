-- ===== src/Crypto/Sign.antt =====
-- Message signing: internal/smb3/sign.go. The library's HMAC, AES and GCM are arguments.
pub mod Verified
use gosamba.Prelude.{
  ℕ, suc, ◌+◌, Bool, true, false, ◌&&◌, ◌==◌, ltb, if◌then◌else◌, List, [], ◌∷◌, ◌++◌, take,
  replicate, bit_and, bit_or,
}
use gosamba.Prelude.Assoc.{same_bytes}
use gosamba.Wire.{Bytes, copy, slice, uint32, uint64, le32, le64}
use gosamba.Crypto.Cmac.{cmac}

-- `hmac key msg` is HMAC-SHA256, `encrypt key block` is AES, and `seal key nonce aad` is the tag of
-- GCM without a plaintext.
pub record Primitives : Type 0 where
  pub hmac : List ℕ → List ℕ → List ℕ
  pub encrypt : List ℕ → List ℕ → List ℕ
  pub seal : List ℕ → List ℕ → List ℕ → List ℕ

abbrev pub sign_algo_hmac_sha256 : ℕ
sign_algo_hmac_sha256 = 0x0000

abbrev pub sign_algo_aes_gmac : ℕ
sign_algo_aes_gmac = 0x0002

abbrev pub all_bytes : Bytes → List ℕ
all_bytes b = slice b 0 b.len

unfoldable pub hmac_sha256_sign : Primitives → List ℕ → Bytes → List ℕ
hmac_sha256_sign p key msg = take 16 (p.hmac key (all_bytes msg))

-- The nonce is the message id and the two direction flags.
unfoldable pub gmac_sign : Primitives → List ℕ → Bytes → List ℕ
gmac_sign p key msg =
    let nonce = le64 (uint64 msg 24) ++ le32 (bit_and (uint32 msg 16) 3) in
    take 16 (p.seal key nonce (all_bytes msg))

unfoldable pub compute_mac : Primitives → ℕ → List ℕ → Bytes → List ℕ
compute_mac p algo key msg =
    if algo == sign_algo_aes_gmac
    then gmac_sign p key msg
    else if algo == sign_algo_hmac_sha256
    then hmac_sha256_sign p key msg
    else cmac (p.encrypt key) (all_bytes msg)

abbrev pub clear_signature : Bytes → Bytes
clear_signature = copy 48 (replicate 16 0)

-- `msg[16] |= 0x08`
unfoldable pub set_signed : Bytes → Bytes
set_signed b = record b { at = λ i. if i == 16 then bit_or (b.at 16) 0x08 else b.at i }

unfoldable pub sign_message : Primitives → ℕ → List ℕ → Bytes → Bytes
sign_message p algo key msg =
    if ltb msg.len 64
    then msg
    else let b = set_signed (clear_signature msg) in copy 48 (compute_mac p algo key b) b

unfoldable pub verify_message : Primitives → ℕ → List ℕ → Bytes → Bool
verify_message p algo key msg =
    if ltb msg.len 64
    then false
    else same_bytes (compute_mac p algo key (clear_signature msg)) (slice msg 48 16)
