-- ===== src/Negotiate/Chosen.antt =====
-- What `Select` chooses, and when it refuses.
use gosamba.Prelude.{
  ℕ, ◌≡◌, ◌≢◌, ◌⊎◌, refl, Bool, true, false, not, ◌&&◌, ◌||◌, ◌==◌, if◌then◌else◌, List, [], ◌∷◌,
  Option, none, some, inl, inr, arith, Bool-cases, ==_iff, bit_and, subst,
}
use gosamba.Negotiate.Best.{
  Best, NoneOffered, Positive, pick_dialect-Best, pick_dialect-NoneOffered, pick-Best,
  pick-NoneOffered,
}
use gosamba.Negotiate.{
  NegotiateRequest, offers, pick_dialect, pick, select_cipher, select_offered_signing,
  select_signing, finish, select_for, select, supported_dialects, supported_ciphers,
  supported_signing_algos, dialect311, dialect300, dialect302, hash_sha512, pick_offered,
  cap_encryption, cipher_aes128_ccm, signing_aes_cmac, signing_hmac_sha256, Selected,
  err_no_common_dialect, err_no_common_cipher, err_no_preauth_sha512, err_no_common_signing_algo,
}

-- The cipher (0 for none) that a dialect and the request call for.
pub data CipherRule (req : NegotiateRequest) : ℕ → ℕ → Type 0 where
  best :
      (offered : List ℕ) (c : ℕ)
      → req.encryption ≡ some offered
      → Best supported_ciphers offered c
      → CipherRule req dialect311 c
  nothing_common :
      (offered : List ℕ)
      → req.encryption ≡ some offered
      → NoneOffered supported_ciphers offered
      → CipherRule req dialect311 0
  no_context : req.encryption ≡ none → CipherRule req dialect311 0
  flagged :
      (d : ℕ)
      → (d ≡ dialect300) ⊎ (d ≡ dialect302)
      → bit_and req.capabilities cap_encryption ≢ 0
      → CipherRule req d cipher_aes128_ccm
  unflagged :
      (d : ℕ)
      → (d ≡ dialect300) ⊎ (d ≡ dialect302)
      → bit_and req.capabilities cap_encryption ≡ 0
      → CipherRule req d 0
  before_smb3 :
      (d : ℕ) → (d ≢ dialect311) × (d ≢ dialect300) × (d ≢ dialect302) → CipherRule req d 0

ciphers-Positive : Positive supported_ciphers
ciphers-Positive = (omega arith, (omega arith, (omega arith, (omega arith, tt))))

algos-Positive : Positive supported_signing_algos
algos-Positive = (omega arith, (omega arith, tt))

cipher_of_context :
    (req : NegotiateRequest) (ctx : Option (List ℕ))
    → req.encryption ≡ ctx
    → CipherRule req dialect311 (pick_offered supported_ciphers ctx)
cipher_of_context req none e = no_context e
cipher_of_context req (some offered) e = elim (Bool-cases (pick supported_ciphers offered == 0)) [
  | inl z ↦
      let zero_ : pick supported_ciphers offered ≡ 0 =
        ground (arith, ==_iff (pick supported_ciphers offered) 0) in
      rw zero_ (
        nothing_common offered e
          (pick-NoneOffered supported_ciphers offered ciphers-Positive zero_))
  | inr z ↦ best offered (pick supported_ciphers offered) e (
      pick-Best supported_ciphers offered ciphers-Positive
        (ground (arith, ==_iff (pick supported_ciphers offered) 0)))
]

select_cipher-CipherRule : (req : NegotiateRequest) (d : ℕ) → CipherRule req d (select_cipher req d)
unfolding select_cipher
select_cipher-CipherRule req d = elim (Bool-cases (d == dialect311)) [
  | inl e ↦
      let is : d ≡ dialect311 = ground (arith, ==_iff d dialect311) in
      rw (is) (cipher_of_context req req.encryption refl)
  | inr e ↦ elim (Bool-cases (d == dialect300 || d == dialect302)) [
    | inl f ↦ elim (Bool-cases (bit_and req.capabilities cap_encryption == 0)) [
      | inl g ↦ rw (e, f, g) (unflagged d (ground arith) (ground arith))
      | inr g ↦ rw (e, f, g) (flagged d (ground arith) (ground arith))
    ]
    | inr f ↦ rw (e, f) (before_smb3 d (ground arith, ground arith, ground arith))
  ]
]

-- The signing algorithm that a dialect and the request call for; `none` is the refusal.
pub data SigningRule (req : NegotiateRequest) : ℕ → Option ℕ → Type 0 where
  best_algo :
      (offered : List ℕ) (a : ℕ)
      → req.signing_caps ≡ some offered
      → Best supported_signing_algos offered a
      → SigningRule req dialect311 (some a)
  no_common_algo :
      (offered : List ℕ)
      → req.signing_caps ≡ some offered
      → offered ≢ []
      → NoneOffered supported_signing_algos offered
      → SigningRule req dialect311 none
  nothing_offered :
      (req.signing_caps ≡ none) ⊎ (req.signing_caps ≡ some [])
      → SigningRule req dialect311 (some signing_aes_cmac)
  smb3_cmac :
      (d : ℕ) → (d ≡ dialect300) ⊎ (d ≡ dialect302) → SigningRule req d (some signing_aes_cmac)
  smb2_hmac :
      (d : ℕ)
      → (d ≢ dialect311) × (d ≢ dialect300) × (d ≢ dialect302)
      → SigningRule req d (some signing_hmac_sha256)

signing_of_context :
    (req : NegotiateRequest) (ctx : Option (List ℕ))
    → req.signing_caps ≡ ctx
    → SigningRule req dialect311 (select_offered_signing ctx)
unfolding select_offered_signing
signing_of_context req none e = nothing_offered (inl e)
signing_of_context req (some []) e = nothing_offered (inr e)
signing_of_context req (some (a ∷ rest)) e =
    elim (Bool-cases (pick supported_signing_algos (a ∷ rest) == 0)) [
      | inl z ↦
          let zero_ : pick supported_signing_algos (a ∷ rest) ≡ 0 =
            ground (arith, ==_iff (pick supported_signing_algos (a ∷ rest)) 0) in
          rw z (
            no_common_algo (a ∷ rest) e (λ n. ground arith)
              (pick-NoneOffered supported_signing_algos (a ∷ rest) algos-Positive zero_))
      | inr z ↦ rw z (
          best_algo (a ∷ rest) (pick supported_signing_algos (a ∷ rest)) e (
            pick-Best supported_signing_algos (a ∷ rest) algos-Positive
              (ground (arith, ==_iff (pick supported_signing_algos (a ∷ rest)) 0))))
    ]

select_signing-SigningRule :
    (req : NegotiateRequest) (d : ℕ) → SigningRule req d (select_signing req d)
unfolding select_signing
select_signing-SigningRule req d = elim (Bool-cases (d == dialect311)) [
  | inl e ↦
      let is : d ≡ dialect311 = ground (arith, ==_iff d dialect311) in
      rw (is) (signing_of_context req req.signing_caps refl)
  | inr e ↦ elim (Bool-cases (d == dialect300 || d == dialect302)) [
    | inl f ↦ rw (e, f) (smb3_cmac d (ground arith))
    | inr f ↦ rw (e, f) (smb2_hmac d (ground arith, ground arith, ground arith))
  ]
]

-- The four refusals and the choice, each with what it means of the request.
abbrev pub SelectOutcome : NegotiateRequest → Bool → Selected → Type 0
SelectOutcome req require_encryption (inl err_no_common_dialect) =
    NoneOffered supported_dialects req.dialects
SelectOutcome req require_encryption (inl err_no_preauth_sha512) =
    Best supported_dialects req.dialects dialect311
    × (offers hash_sha512 req.hash_algorithms ≡ false)
SelectOutcome req require_encryption (inl err_no_common_cipher) =
    (require_encryption ≡ true)
    × ((d : ℕ) × Best supported_dialects req.dialects d × CipherRule req d 0)
SelectOutcome req require_encryption (inl err_no_common_signing_algo) =
    (d : ℕ) × Best supported_dialects req.dialects d × SigningRule req d none
SelectOutcome req require_encryption (inr s) =
    Best supported_dialects req.dialects s.dialect
    × CipherRule req s.dialect s.cipher
    × SigningRule req s.dialect (some s.signing_algo)
    × (((s.dialect ≡ dialect311)
          × (offers hash_sha512 req.hash_algorithms ≡ true)
          × (s.hash ≡ hash_sha512))
        ⊎ ((s.dialect ≢ dialect311) × (s.hash ≡ 0)))
    × ((require_encryption ≡ false) ⊎ (s.cipher ≢ 0))

finish-SelectOutcome :
    (req : NegotiateRequest) (enc : Bool) (d cipher hash : ℕ) (a : Option ℕ)
    → Best supported_dialects req.dialects d
    → CipherRule req d cipher
    → SigningRule req d a
    → (((d ≡ dialect311) × (offers hash_sha512 req.hash_algorithms ≡ true) × (hash ≡ hash_sha512))
        ⊎ ((d ≢ dialect311) × (hash ≡ 0)))
    → ((enc ≡ false) ⊎ (cipher ≢ 0))
    → SelectOutcome req enc (finish req d cipher hash a)
unfolding finish
finish-SelectOutcome req enc d cipher hash none b c s h e = (d, b, s)
finish-SelectOutcome req enc d cipher hash (some a) b c s h e = (b, c, s, h, e)

select_for-SelectOutcome :
    (req : NegotiateRequest) (enc : Bool) (p : Option ℕ)
    → pick_dialect supported_dialects req.dialects ≡ p
    → SelectOutcome req enc (select_for req enc p)
unfolding select_for
select_for-SelectOutcome req enc none e = pick_dialect-NoneOffered supported_dialects req.dialects e
select_for-SelectOutcome req enc (some d) e =
    let b = pick_dialect-Best supported_dialects req.dialects d e in
    elim (Bool-cases (d == dialect311 && not (offers hash_sha512 req.hash_algorithms))) [
      | inl x ↦
          let is : d ≡ dialect311 = ground (arith, ==_iff d dialect311) in
          rw x (subst (λ v. Best supported_dialects req.dialects v) is b, ground arith)
      | inr x ↦ elim (Bool-cases (enc && select_cipher req d == 0)) [
        | inl y ↦
            let zero_ : select_cipher req d ≡ 0 = ground arith in
            rw (x, y) (ground arith, (d, b, rw (← zero_) (select_cipher-CipherRule req d)))
        | inr y ↦
            rw (x, y)
              (finish-SelectOutcome req enc d (select_cipher req d)
                (if d == dialect311 then hash_sha512 else 0) (select_signing req d) b
                (select_cipher-CipherRule req d) (select_signing-SigningRule req d) (ground arith)
                (ground arith))
      ]
    ]

-- `Select` for every request: the dialect is the first of the server's that the client offers, the
-- cipher and the signing algorithm are those that the rules for that dialect name, 3.1.1 has the
-- SHA-512 hash and no other dialect has one, and a cipher is there where encryption is required. Each
-- refusal occurs only where its cause holds.
pub select-SelectOutcome :
    (req : NegotiateRequest) (require_encryption : Bool)
    → SelectOutcome req require_encryption (select req require_encryption)
unfolding select
select-SelectOutcome req require_encryption =
    select_for-SelectOutcome req require_encryption (pick_dialect supported_dialects req.dialects)
      refl
