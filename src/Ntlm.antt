-- ===== src/Ntlm.antt =====
-- The NTLMSSP messages of internal/ntlm/messages.go and internal/ntlm/avpairs.go. A Go string is the
-- list of its bytes.
pub mod Pairs
pub mod Text
pub mod Fields
pub mod Response
pub mod Challenge
use gosamba.Prelude.{
  ℕ, zero, suc, ◌+◌, ◌-◌, ◌*◌, ◌/◌, ◌%◌, ◌^◌, Bool, true, false, not, ◌&&◌, ◌==◌, ltb, leb,
  if◌then◌else◌, List, [], ◌∷◌, ◌++◌, length, take, drop, replicate, bit_and, Option, none, some,
  ◌⊎◌, inl, inr,
}
use gosamba.Prelude.Assoc.{same_bytes}
use gosamba.Wire.{Bytes, slice, nth, uint16, uint32, le16}

-- "NTLMSSP\x00"
abbrev pub signature : List ℕ
signature = 0x4E ∷ 0x54 ∷ 0x4C ∷ 0x4D ∷ 0x53 ∷ 0x53 ∷ 0x50 ∷ 0 ∷ []

abbrev pub message_type_negotiate : ℕ
message_type_negotiate = 1

abbrev pub message_type_authenticate : ℕ
message_type_authenticate = 3

abbrev pub negotiate_unicode : ℕ
negotiate_unicode = 0x00000001

abbrev pub negotiate_key_exch : ℕ
negotiate_key_exch = 0x40000000

abbrev pub av_eol : ℕ
av_eol = 0

abbrev pub av_flags : ℕ
av_flags = 6

pub record AvPair : Type 0 where
  pub id : ℕ
  pub value : List ℕ

-- Both fields of the header are cut to 16 bits.
unfoldable pub encode_av_list : List AvPair → List ℕ
encode_av_list [] = 0 ∷ 0 ∷ 0 ∷ 0 ∷ []
encode_av_list (p ∷ pairs) =
    le16 p.id ++ (le16 (length p.value) ++ (p.value ++ encode_av_list pairs))

abbrev pub word_at : ℕ → List ℕ → ℕ
word_at k b = nth k b + 256 * nth (k + 1) b

abbrev pub and_pair : AvPair → Option (List AvPair) → Option (List AvPair)
and_pair p none = none
and_pair p (some pairs) = some (p ∷ pairs)

-- `none` for both errors. A pair takes at least four bytes, which bounds the turns.
unfoldable pub av_loop : ℕ → List ℕ → Option (List AvPair)
av_loop zero b = none
av_loop (suc fuel) b =
    let l = word_at 2 b in
    let rest =
      and_pair (record { id = word_at 0 b; value = take l (drop 4 b) })
        (av_loop fuel (drop (4 + l) b)) in
    if ltb (length b) 4
    then none
    else if word_at 0 b == av_eol
    then some []
    else if ltb (length b) (4 + l)
    then none
    else rest

unfoldable pub decode_av_list : List ℕ → Option (List AvPair)
decode_av_list b = av_loop (suc (length b)) b

-- `UTF16LE`, of a string that is given by its runes.
unfoldable pub utf16le_rune : ℕ → List ℕ
utf16le_rune r =
    if ltb 0xFFFF r
    then le16 (0xD800 + (r - 0x10000) / 1024 % 2 ^ 16) ++ le16 (0xDC00 + (r - 0x10000) % 1024)
    else le16 r

unfoldable pub utf16le : List ℕ → List ℕ
utf16le [] = []
utf16le (r ∷ rs) = utf16le_rune r ++ utf16le rs

-- `string(r)` for a rune of 16 bits: UTF-8, with U+FFFD for a surrogate.
unfoldable pub utf8_rune : ℕ → List ℕ
utf8_rune r =
    if ltb r 0x80
    then r ∷ []
    else if ltb r 0x800
    then (0xC0 + r / 64) ∷ (0x80 + r % 64) ∷ []
    else if leb 0xD800 r && ltb r 0xE000
    then 0xEF ∷ 0xBF ∷ 0xBD ∷ []
    else (0xE0 + r / 4096) ∷ (0x80 + r / 64 % 64) ∷ (0x80 + r % 64) ∷ []

-- An odd last byte is dropped.
unfoldable pub decode_utf16le : List ℕ → List ℕ
decode_utf16le [] = []
decode_utf16le (a ∷ []) = []
decode_utf16le (a ∷ b ∷ bs) = utf8_rune (a + 256 * b) ++ decode_utf16le bs

pub data NtlmError : Type 0 where
  err_short_message bad_signature bad_message_type : NtlmError

abbrev pub Parsed {ℓ} : Type ℓ → Type ℓ
Parsed A = NtlmError ⊎ A

infixl 5 ◌>>=◌
abbrev pub ◌>>=◌ {ℓ κ} : {A : Type ℓ} {B : Type κ} → Parsed A → (A → Parsed B) → Parsed B
inl e >>= f = inl e
inr a >>= f = f a

-- `DecodeNegotiate`: the flags.
unfoldable pub decode_negotiate : Bytes → Parsed ℕ
decode_negotiate b =
    if ltb b.len 32
    then inl err_short_message
    else if not (same_bytes (slice b 0 8) signature)
    then inl bad_signature
    else if not (uint32 b 8 == message_type_negotiate)
    then inl bad_message_type
    else inr (uint32 b 12)

pub record AuthenticateMessage : Type 0 where
  pub lm_response : List ℕ
  pub nt_response : List ℕ
  pub domain_name : List ℕ
  pub user_name : List ℕ
  pub workstation : List ℕ
  pub encrypted_random_session_key : List ℕ
  pub flags : ℕ
  pub mic : List ℕ
  pub has_mic : Bool

-- A payload field, by its descriptor at `off`. An `int` has 64 bits: the sum does not wrap.
unfoldable pub read_field : Bytes → ℕ → Parsed (List ℕ)
read_field b off =
    let l = uint16 b off in
    let o = uint32 b (off + 4) in
    if l == 0
    then inr []
    else if ltb b.len (o + l)
    then inl err_short_message
    else inr (slice b o l)

abbrev pub mic_offset : ℕ
mic_offset = 72

-- The descriptors of the six payload fields.
abbrev pub descriptors : List ℕ
descriptors = 12 ∷ 20 ∷ 28 ∷ 36 ∷ 44 ∷ 52 ∷ []

unfoldable pub smallest_from : Bytes → ℕ → List ℕ → ℕ
smallest_from b min [] = min
smallest_from b min (off ∷ offs) =
    let o = uint32 b (off + 4) in
    let rest = smallest_from b (if ltb 0 (uint16 b off) && ltb o min then o else min) offs in
    if ltb b.len (off + 8) then min else rest

unfoldable pub smallest_payload_offset : Bytes → ℕ
smallest_payload_offset b = smallest_from b (2 ^ 63 - 1) descriptors

unfoldable pub text_of : ℕ → List ℕ → List ℕ
text_of flags raw = if not (bit_and flags negotiate_unicode == 0) then decode_utf16le raw else raw

unfoldable pub carries_mic : Bytes → Bool
carries_mic b = leb (mic_offset + 16) b.len && leb (mic_offset + 16) (smallest_payload_offset b)

unfoldable pub decode_fields : Bytes → Parsed AuthenticateMessage
decode_fields b = do
  lm ← read_field b 12
  nt ← read_field b 20
  dom ← read_field b 28
  usr ← read_field b 36
  wks ← read_field b 44
  key ← read_field b 52
  inr (record {
    lm_response = lm;
    nt_response = nt;
    domain_name = text_of (uint32 b 60) dom;
    user_name = text_of (uint32 b 60) usr;
    workstation = text_of (uint32 b 60) wks;
    encrypted_random_session_key = key;
    flags = uint32 b 60;
    mic = if carries_mic b then slice b mic_offset 16 else replicate 16 0;
    has_mic = carries_mic b;
  })

unfoldable pub decode_authenticate : Bytes → Parsed AuthenticateMessage
decode_authenticate b =
    if ltb b.len 64
    then inl err_short_message
    else if not (same_bytes (slice b 0 8) signature)
    then inl bad_signature
    else if not (uint32 b 8 == message_type_authenticate)
    then inl bad_message_type
    else decode_fields b
