-- ===== src/Negotiate.antt =====
-- Negotiation: the constants of internal/smb2/negotiate.go, Select of internal/smb2/selection.go and
-- grantCredits of internal/parent/credits.go.
pub mod Best
pub mod Chosen
pub mod Credits
use gosamba.Prelude.{
  ℕ, ◌+◌, Bool, true, false, not, ◌&&◌, ◌||◌, ◌==◌, ltb, if◌then◌else◌, List, [], ◌∷◌, any, length,
  Option, none, some, inl, inr, ◌⊎◌, bit_and,
}

abbrev pub dialect202 : ℕ
dialect202 = 0x0202

abbrev pub dialect210 : ℕ
dialect210 = 0x0210

abbrev pub dialect300 : ℕ
dialect300 = 0x0300

abbrev pub dialect302 : ℕ
dialect302 = 0x0302

abbrev pub dialect311 : ℕ
dialect311 = 0x0311

abbrev pub cap_encryption : ℕ
cap_encryption = 0x00000040

abbrev pub cipher_aes128_ccm : ℕ
cipher_aes128_ccm = 0x0001

abbrev pub cipher_aes128_gcm : ℕ
cipher_aes128_gcm = 0x0002

abbrev pub cipher_aes256_ccm : ℕ
cipher_aes256_ccm = 0x0003

abbrev pub cipher_aes256_gcm : ℕ
cipher_aes256_gcm = 0x0004

abbrev pub hash_sha512 : ℕ
hash_sha512 = 0x0001

abbrev pub signing_hmac_sha256 : ℕ
signing_hmac_sha256 = 0x0000

abbrev pub signing_aes_cmac : ℕ
signing_aes_cmac = 0x0001

abbrev pub signing_aes_gmac : ℕ
signing_aes_gmac = 0x0002

abbrev pub supported_dialects : List ℕ
supported_dialects = dialect311 ∷ dialect302 ∷ dialect300 ∷ dialect210 ∷ dialect202 ∷ []

abbrev pub supported_ciphers : List ℕ
supported_ciphers =
    cipher_aes256_gcm ∷ cipher_aes128_gcm ∷ cipher_aes256_ccm ∷ cipher_aes128_ccm ∷ []

abbrev pub supported_signing_algos : List ℕ
supported_signing_algos = signing_aes_cmac ∷ signing_aes_gmac ∷ []

-- The decoded request, without the fields that `Select` does not read. The nil contexts are `none`.
pub record NegotiateRequest : Type 0 where
  pub capabilities : ℕ
  pub dialects : List ℕ
  pub hash_algorithms : List ℕ
  pub encryption : Option (List ℕ)
  pub signing_caps : Option (List ℕ)

-- 0 stands for no cipher and for no hash.
pub record Selection : Type 0 where
  pub dialect : ℕ
  pub cipher : ℕ
  pub hash : ℕ
  pub signing_algo : ℕ

pub data NegotiateError : Type 0 where
  err_no_common_dialect err_no_common_cipher err_no_preauth_sha512 err_no_common_signing_algo :
      NegotiateError

abbrev pub Selected : Type 0
Selected = NegotiateError ⊎ Selection

abbrev pub offers : ℕ → List ℕ → Bool
offers d = any (λ c. c == d)

unfoldable pub pick_dialect : List ℕ → List ℕ → Option ℕ
pick_dialect [] offered = none
pick_dialect (d ∷ ds) offered = if offers d offered then some d else pick_dialect ds offered

-- The loops that stop once the field is not 0.
unfoldable pub pick : List ℕ → List ℕ → ℕ
pick [] offered = 0
pick (s ∷ ss) offered =
    let found = if offers s offered then s else 0 in
    let rest = pick ss offered in if not (found == 0) then found else rest

abbrev pub pick_offered : List ℕ → Option (List ℕ) → ℕ
pick_offered supported none = 0
pick_offered supported (some offered) = pick supported offered

unfoldable pub select_cipher : NegotiateRequest → ℕ → ℕ
select_cipher req dialect =
    if dialect == dialect311
    then pick_offered supported_ciphers req.encryption
    else if dialect == dialect300 || dialect == dialect302
    then (if not (bit_and req.capabilities cap_encryption == 0) then cipher_aes128_ccm else 0)
    else 0

-- `none` is the error; an empty list counts as an absent one.
unfoldable pub select_offered_signing : Option (List ℕ) → Option ℕ
select_offered_signing none = some signing_aes_cmac
select_offered_signing (some []) = some signing_aes_cmac
select_offered_signing (some (a ∷ as_)) =
    let algo = pick supported_signing_algos (a ∷ as_) in if algo == 0 then none else some algo

unfoldable pub select_signing : NegotiateRequest → ℕ → Option ℕ
unfolding select_offered_signing
select_signing req dialect =
    if dialect == dialect311
    then select_offered_signing req.signing_caps
    else if dialect == dialect300 || dialect == dialect302
    then some signing_aes_cmac
    else some signing_hmac_sha256

unfoldable pub finish : NegotiateRequest → ℕ → ℕ → ℕ → Option ℕ → Selected
finish req d cipher hash none = inl err_no_common_signing_algo
finish req d cipher hash (some a) =
    inr (record { dialect = d; cipher = cipher; hash = hash; signing_algo = a })

unfoldable pub select_for : NegotiateRequest → Bool → Option ℕ → Selected
unfolding select_cipher select_signing finish
select_for req require_encryption none = inl err_no_common_dialect
select_for req require_encryption (some d) =
    if d == dialect311 && not (offers hash_sha512 req.hash_algorithms)
    then inl err_no_preauth_sha512
    else if require_encryption && select_cipher req d == 0
    then inl err_no_common_cipher
    else finish req d (select_cipher req d) (if d == dialect311 then hash_sha512 else 0)
        (select_signing req d)

unfoldable pub select : NegotiateRequest → Bool → Selected
unfolding select_for
select req require_encryption =
    select_for req require_encryption (pick_dialect supported_dialects req.dialects)

abbrev pub credit_window : ℕ
credit_window = 512

unfoldable pub grant_credits : ℕ → ℕ → ℕ
grant_credits credit_charge req_credit =
    let floor = if ltb credit_charge 1 then 1 else credit_charge in
    let g = if ltb req_credit floor then floor else req_credit in
    let g = if ltb credit_window g then credit_window else g in if ltb g floor then floor else g
