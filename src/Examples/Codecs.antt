-- ===== src/Examples/Codecs.antt =====
-- CCM and the cipher cache over a toy block cipher, create contexts, and a searched.
use gosamba.Prelude.{
  ℕ, ◌≡◌, ◌↔◌, refl, inr, true, false, List, [], ◌∷◌, ◌++◌, replicate, length, take, map, none,
  arith, length-take, length-append, length-replicate, bit_xor,
}
use gosamba.Crypto.Transform.{Aead}
use gosamba.Crypto.Ccm.{seal, open_}
use gosamba.Crypto.Ccm.Sealed.{open-iff-seal}
use gosamba.Crypto.Ciphers.{new_aead, serve}
use gosamba.Crypto.Ciphers.Cached.{serve-new_aead}
use gosamba.Wire.Contexts.{
  Context, iterate_create_contexts, encode_create_contexts, data_offset, entry_size, entry_pad,
  context_body,
}
use gosamba.Wire.Contexts.Reread.{encode_create_contexts-RoundTrip}
use gosamba.Search.{match_smb_pattern, rune_matches}
use gosamba.Prelude.{some}

-- Each byte changed, in a block of 16.
abbrev toy : List ℕ → List ℕ
toy b = take 16 (map (λ x. bit_xor x 0x5A) b ++ replicate 16 3)

toy-sized : (b : List ℕ) → length (toy b) ≡ 16
toy-sized b =
    let xs = map (λ x. bit_xor x 0x5A) b in
    omega (
      arith,
      length-take 16 (xs ++ replicate 16 3),
      length-append xs (replicate 16 3),
      length-replicate {A = ℕ} 16 3,
    )

open-iff-seal_example :
    (open_ toy (replicate 11 1) (seal toy (replicate 11 1) (1 ∷ 2 ∷ []) (9 ∷ [])) (9 ∷ [])
      ≡ inr (1 ∷ 2 ∷ []))
    ↔ (seal toy (replicate 11 1) (1 ∷ 2 ∷ []) (9 ∷ [])
        ≡ seal toy (replicate 11 1) (1 ∷ 2 ∷ []) (9 ∷ []))
open-iff-seal_example =
    open-iff-seal toy toy-sized (replicate 11 1) (seal toy (replicate 11 1) (1 ∷ 2 ∷ []) (9 ∷ []))
      (9 ∷ []) (1 ∷ 2 ∷ []) refl

abbrev toy_gcm : (List ℕ → List ℕ) → Aead
toy_gcm encrypt = record {
  nonce_len = 12;
  seal = λ n p a. p ++ replicate 16 0;
  open_ = λ n c a. none;
}

-- A key twice, one that is too short, and no cipher.
abbrev calls : List (ℕ × List ℕ)
calls = (1, replicate 16 5) ∷ (1, replicate 16 5) ∷ (4, replicate 16 5) ∷ (9, []) ∷ []

serve-new_aead_example :
    (serve (λ key. toy) toy_gcm calls []).1 ≡ map (λ c. new_aead (λ key. toy) toy_gcm c.0 c.1) calls
serve-new_aead_example = serve-new_aead (λ key. toy) toy_gcm calls

-- "MxAc" without data, and "DHnQ" with 16 bytes.
abbrev contexts : List Context
contexts =
    record { name = 0x4D ∷ 0x78 ∷ 0x41 ∷ 0x63 ∷ []; data_ = [] }
    ∷ record { name = 0x44 ∷ 0x48 ∷ 0x6E ∷ 0x51 ∷ []; data_ = replicate 16 0 }
    ∷ []

encode_create_contexts-RoundTrip_example :
    iterate_create_contexts (encode_create_contexts contexts) ≡ contexts
unfolding data_offset entry_size entry_pad context_body
encode_create_contexts-RoundTrip_example = encode_create_contexts-RoundTrip contexts (
  record { name_and_padding = omega arith; data_length = omega arith; size = omega arith },
  (record { name_and_padding = omega arith; data_length = omega arith; size = omega arith }, tt),
)

-- "a*t" and "Art"
abbrev searched : List ℕ
searched = 0x61 ∷ 0x2A ∷ 0x74 ∷ []

abbrev leaf : List ℕ
leaf = 0x41 ∷ 0x72 ∷ 0x74 ∷ []

art_found : match_smb_pattern (λ r. r) searched leaf false ≡ some true
unfolding match_smb_pattern rune_matches gosamba.Search.scan gosamba.Search.step
    gosamba.Search.fold_equal gosamba.Search.backtrack gosamba.Search.only_stars
art_found = refl
