-- ===== src/Crypto/Kdf.antt =====
-- Key derivation: internal/smb3/kdf.go, and the rolling hash of internal/smb2/preauth.go. HMAC-SHA256
-- and SHA-512 are arguments.
pub mod Counted
use gosamba.Prelude.{
  ℕ, zero, suc, ◌+◌, ◌*◌, ◌/◌, ◌%◌, ◌^◌, ltb, if◌then◌else◌, List, [], ◌∷◌, ◌++◌, length, take,
  drop, replicate, Option, none, some,
}
use gosamba.Crypto.Ccm.{be32}

-- What one turn hashes under its counter: the counter, the label, a zero, the context and the length.
unfoldable pub kdf_input : ℕ → List ℕ → List ℕ → ℕ → List ℕ
kdf_input i label context bits = be32 i ++ (label ++ (0 ∷ (context ++ be32 bits)))

-- The loop and the cut to the length; `none` where the fuel runs out.
unfoldable pub kdf_loop : (List ℕ → List ℕ) → List ℕ → List ℕ → ℕ → ℕ → ℕ → List ℕ → Option (List ℕ)
kdf_loop mac label context bits zero i out = none
kdf_loop mac label context bits (suc fuel) i out =
    let rest =
      kdf_loop mac label context bits fuel ((i + 1) % 2 ^ 32)
        (out ++ mac (kdf_input i label context bits)) in
    if ltb (length out % 2 ^ 32 * 8 % 2 ^ 32) bits then rest else some (take (bits / 8) out)

-- `KDF` for `bits` of output: one turn for each 256 bits, and the last test.
unfoldable pub kdf : (List ℕ → List ℕ → List ℕ) → List ℕ → List ℕ → List ℕ → ℕ → Option (List ℕ)
kdf hmac key label context bits =
    kdf_loop (hmac key) label context bits (suc ((bits + 255) / 256)) 1 []

-- The state of `PreauthHash`
abbrev pub new_preauth_hash : List ℕ
new_preauth_hash = replicate 64 0

-- `PreauthHash.Update`: the sum copied over the state.
unfoldable pub update : (List ℕ → List ℕ) → List ℕ → List ℕ → List ℕ
update sha512 msg state =
    let sum = sha512 (state ++ msg) in take (length state) sum ++ drop (length sum) state
