-- ===== src/Crypto/Ciphers.antt =====
-- The choice of an AEAD for a session's cipher in internal/smb3/encrypt.go, and the process-wide cache
-- of built ciphers in internal/smb3/aeadcache.go. AES and GCM are arguments; neither fails for the key
-- and block sizes that the code hands them.
pub mod Cached
use gosamba.Prelude.{
  ℕ, Bool, true, false, not, ◌&&◌, ◌||◌, ◌==◌, ltb, leb, if◌then◌else◌, List, [], ◌∷◌, length, take,
  Option, none, some, ◌⊎◌, inl, inr,
}
use gosamba.Prelude.Assoc.{Map, get?, put, nat_key, bytes_key}
use gosamba.Crypto.Transform.{Aead}
use gosamba.Crypto.Ccm.{new_ccm}

abbrev pub cipher_aes128_ccm : ℕ
cipher_aes128_ccm = 0x0001

abbrev pub cipher_aes128_gcm : ℕ
cipher_aes128_gcm = 0x0002

abbrev pub cipher_aes256_ccm : ℕ
cipher_aes256_ccm = 0x0003

abbrev pub cipher_aes256_gcm : ℕ
cipher_aes256_gcm = 0x0004

abbrev pub aead_cache_limit : ℕ
aead_cache_limit = 512

pub data CipherError : Type 0 where
  short_key unknown_cipher : CipherError

-- The shards by cipher id; a shard that is not there is the nil map.
abbrev pub Caches : Type 0
Caches = Map ℕ (Map (List ℕ) Aead)

abbrev pub shard_of : Option (Map (List ℕ) Aead) → Map (List ℕ) Aead
shard_of none = []
shard_of (some m) = m

unfoldable pub shard : ℕ → Caches → Map (List ℕ) Aead
shard cipher caches = shard_of (get? cipher caches)

-- A full shard is dropped whole.
unfoldable pub remember : ℕ → List ℕ → Aead → Caches → Caches
remember cipher raw_key a caches =
    let m = shard cipher caches in
    put cipher (put raw_key a (if leb aead_cache_limit (length m) then [] else m)) caches

abbrev pub built : ℕ → List ℕ → CipherError ⊎ Aead → Caches → Caches × (CipherError ⊎ Aead)
built cipher raw_key (inl e) caches = (caches, inl e)
built cipher raw_key (inr a) caches = (remember cipher raw_key a caches, inr a)

-- `aes key` is the block cipher, and `gcm` wraps one. The length of the nonce goes with the AEAD.
module _ (aes : List ℕ → List ℕ → List ℕ) (gcm : (List ℕ → List ℕ) → Aead) where
  unfoldable pub block_mode : Bool → List ℕ → Aead
  block_mode is_gcm key =
      if is_gcm then record (gcm (aes key)) { nonce_len = 12 } else new_ccm (aes key)

  unfoldable pub new_aead : ℕ → List ℕ → CipherError ⊎ Aead
  new_aead cipher raw_key =
      if cipher == cipher_aes128_gcm || cipher == cipher_aes128_ccm
      then (if ltb (length raw_key) 16
          then inl short_key
          else inr (block_mode (cipher == cipher_aes128_gcm) (take 16 raw_key)))
      else if cipher == cipher_aes256_gcm || cipher == cipher_aes256_ccm
      then (if ltb (length raw_key) 32
          then inl short_key
          else inr (block_mode (cipher == cipher_aes256_gcm) (take 32 raw_key)))
      else inl unknown_cipher

  abbrev pub or_built : ℕ → List ℕ → Option Aead → Caches → Caches × (CipherError ⊎ Aead)
  or_built cipher raw_key (some a) caches = (caches, inr a)
  or_built cipher raw_key none caches = built cipher raw_key (new_aead cipher raw_key) caches

  unfoldable pub aead_for : ℕ → List ℕ → Caches → Caches × (CipherError ⊎ Aead)
  aead_for cipher raw_key caches =
      if cipher == 0 || leb 5 cipher
      then (caches, new_aead cipher raw_key)
      else or_built cipher raw_key (get? raw_key (shard cipher caches)) caches

  -- Calls of any connections, one after the other.
  abbrev pub serve : List (ℕ × List ℕ) → Caches → Caches × List (CipherError ⊎ Aead)
  serve [] caches = (caches, [])
  serve ((cipher, raw_key) ∷ calls) caches =
      let (caches', answer) = aead_for cipher raw_key caches in
      let (last, answers) = serve calls caches' in (last, answer ∷ answers)
