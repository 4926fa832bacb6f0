-- ===== src/Crypto/Ciphers/Cached.antt =====
-- The cache against building each AEAD anew, and what the ciphers promise the transform frames.
use gosamba.Prelude.{
  ℕ, ◌≤◌, ◌≡◌, refl, ap, subst, sym, ◌∙◌, inl, inr, Bool, true, false, ◌==◌, ◌||◌, leb,
  if◌then◌else◌, List, [], ◌∷◌, length, take, map, Option, none, some, ◌⊎◌, arith, Bool-cases,
}
use gosamba.Prelude.Assoc.{Map, get?, put, nat_key, bytes_key, get?-put, same_bytes, same_bytes_iff}
use gosamba.Crypto.Transform.{Aead}
use gosamba.Crypto.Transform.RoundTrip.{IsAead}
use gosamba.Crypto.Ccm.{new_ccm}
use gosamba.Crypto.Ccm.Sealed.{new_ccm-IsAead}
use gosamba.Crypto.Ciphers.{
  CipherError, Caches, shard, block_mode, new_aead, remember, built, or_built, aead_for, serve,
}

module _ (aes : List ℕ → List ℕ → List ℕ) (gcm : (List ℕ → List ℕ) → Aead) where
  -- A cached AEAD is the one that its key gives.
  abbrev IsFaithful : Caches → Type 0
  IsFaithful caches =
      (cipher : ℕ) (key : List ℕ) (a : Aead)
      → get? key (shard cipher caches) ≡ some a
      → new_aead aes gcm cipher key ≡ inr a

  shard-put :
      (cipher j : ℕ) (m : Map (List ℕ) Aead) (caches : Caches)
      → shard j (put cipher m caches) ≡ (if cipher == j then m else shard j caches)
  unfolding shard
  shard-put cipher j m caches = ground (arith, get?-put cipher j m caches)

  kept-some :
      (full : Bool) (m : Map (List ℕ) Aead) (key : List ℕ) (a : Aead)
      → get? key (if full then [] else m) ≡ some a
      → get? key m ≡ some a
  unfolding get?
  kept-some true m key a h = absurd (ground arith)
  kept-some false m key a h = h

  remember-IsFaithful :
      (cipher : ℕ) (key : List ℕ) (a : Aead) (caches : Caches)
      → new_aead aes gcm cipher key ≡ inr a
      → IsFaithful caches
      → IsFaithful (remember cipher key a caches)
  unfolding remember
  remember-IsFaithful cipher key a caches e v j k b h =
      let m = shard cipher caches in
      let kept = if leb 512 (length m) then [] else m in
      let found : get? k (shard j (put cipher (put key a kept) caches))
          ≡ get? k (if cipher == j then put key a kept else shard j caches) =
        ap (get? k) (shard-put cipher j (put key a kept) caches) in
      elim (Bool-cases (cipher == j)) [
        | inr other ↦
            let old : get? k (shard j caches) ≡ some b = rw other at (sym found ∙ h) in v j k b old
        | inl here ↦
            let same : cipher ≡ j = ground arith in
            let put_ : get? k (put key a kept) ≡ some b = rw here at (sym found ∙ h) in
            elim (Bool-cases (same_bytes key k)) [
              | inl this ↦
                  let keys : key ≡ k = (same_bytes_iff key k).0 this in
                  let answer : a ≡ b = ground (arith, get?-put key k a kept) in
                  rw (← same, ← keys, ← answer) e
              | inr that ↦
                  let old : get? k kept ≡ some b = ground (arith, get?-put key k a kept) in
                  rw (← same) (v cipher k b (kept-some (leb 512 (length m)) m k b old))
            ]
      ]

  or_built-IsFaithful :
      (cipher : ℕ) (key : List ℕ) (found : Option Aead) (caches : Caches)
      → get? key (shard cipher caches) ≡ found
      → IsFaithful caches
      → IsFaithful (or_built aes gcm cipher key found caches).0
        × ((or_built aes gcm cipher key found caches).1 ≡ new_aead aes gcm cipher key)
  or_built-IsFaithful cipher key (some a) caches e v = (v, sym (v cipher key a e))
  or_built-IsFaithful cipher key none caches e v = after (new_aead aes gcm cipher key) refl
    where
      after :
          (answer : CipherError ⊎ Aead)
          → new_aead aes gcm cipher key ≡ answer
          → IsFaithful (built cipher key answer caches).0
            × ((built cipher key answer caches).1 ≡ answer)
      after (inl x) h = (v, refl)
      after (inr a) h = (remember-IsFaithful cipher key a caches h v, refl)

  aead_for-IsFaithful :
      (cipher : ℕ) (key : List ℕ) (caches : Caches)
      → IsFaithful caches
      → IsFaithful (aead_for aes gcm cipher key caches).0
        × ((aead_for aes gcm cipher key caches).1 ≡ new_aead aes gcm cipher key)
  unfolding aead_for
  aead_for-IsFaithful cipher key caches v = elim (Bool-cases (cipher == 0 || leb 5 cipher)) [
    | inl out ↦ rw out (v, refl)
    | inr inside ↦
        rw inside (or_built-IsFaithful cipher key (get? key (shard cipher caches)) caches refl v)
  ]

  abbrev anew : ℕ × List ℕ → CipherError ⊎ Aead
  anew (cipher, key) = new_aead aes gcm cipher key

  serve-anew :
      (calls : List (ℕ × List ℕ)) (caches : Caches)
      → IsFaithful caches
      → (serve aes gcm calls caches).1 ≡ map anew calls
  serve-anew [] caches v = refl
  serve-anew ((cipher, key) ∷ calls) caches v =
      let r = aead_for-IsFaithful cipher key caches v in
      λ t. r.1 t ∷ serve-anew calls (aead_for aes gcm cipher key caches).0 r.0 t

  -- Whatever calls the connections make, in whatever order, and however often a full shard is dropped,
  -- each gets from the cache what building the cipher anew gives it, an error included.
  pub serve-new_aead :
      (calls : List (ℕ × List ℕ))
      → (serve aes gcm calls []).1 ≡ map (λ c. new_aead aes gcm c.0 c.1) calls
  unfolding shard get?
  serve-new_aead calls = serve-anew calls [] (λ cipher key a h. absurd (ground arith))

-- What the transform frames ask of an AEAD.
abbrev pub Usable : Aead → Type 0
Usable a = IsAead a × (8 ≤ a.nonce_len) × (a.nonce_len ≤ 16)

module _ (aes : List ℕ → List ℕ → List ℕ) (gcm : (List ℕ → List ℕ) → Aead) where
  block_mode-Usable :
      ((key block : List ℕ) → length (aes key block) ≡ 16)
      → ((encrypt : List ℕ → List ℕ) → IsAead (record (gcm encrypt) { nonce_len = 12 }))
      → (is_gcm : Bool) (key : List ℕ) → Usable (block_mode aes gcm is_gcm key)
  unfolding block_mode new_ccm
  block_mode-Usable sized modes true key = (modes (aes key), omega arith, omega arith)
  block_mode-Usable sized modes false key =
      (new_ccm-IsAead (aes key) (sized key), omega arith, omega arith)

  mode_of :
      (cipher : ℕ) (raw_key : List ℕ) (a : Aead)
      → new_aead aes gcm cipher raw_key ≡ inr a
      → (is_gcm : Bool) × (key : List ℕ) × (block_mode aes gcm is_gcm key ≡ a)
  unfolding new_aead
  mode_of cipher raw_key a h = elim (Bool-cases (cipher == 2 || cipher == 1)) [
    | inl short ↦ (cipher == 2, take 16 raw_key, ground (arith, h, short))
    | inr long ↦ (cipher == 4, take 32 raw_key, ground (arith, h, long))
  ]

-- A cipher that is built gives what the transform frames ask of an AEAD, with a nonce that fits, where
-- AES has blocks of 16 bytes and GCM, with its nonce of 12 bytes, keeps the contract of an AEAD.
pub new_aead-IsAead :
    (aes : List ℕ → List ℕ → List ℕ) (gcm : (List ℕ → List ℕ) → Aead)
    → ((key block : List ℕ) → length (aes key block) ≡ 16)
    → ((encrypt : List ℕ → List ℕ) → IsAead (record (gcm encrypt) { nonce_len = 12 }))
    → (cipher : ℕ) (raw_key : List ℕ) (a : Aead) → new_aead aes gcm cipher raw_key ≡ inr a
    → Usable a
new_aead-IsAead aes gcm sized modes cipher raw_key a h =
    let (is_gcm, key, e) = mode_of aes gcm cipher raw_key a h in
    subst Usable e (block_mode-Usable aes gcm sized modes is_gcm key)
