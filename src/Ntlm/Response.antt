-- ===== src/Ntlm/Response.antt =====
-- The check of an NTLMv2 response in internal/ntlm/ntlmv2.go and of the message integrity code in
-- internal/ntlm/mic.go. HMAC-MD5, strings.ToUpper and utf16.Encode are arguments.
use gosamba.Prelude.{
  ℕ, ◌+◌, ◌*◌, Bool, false, not, ◌&&◌, ◌==◌, ltb, leb, if◌then◌else◌, List, [], ◌∷◌, ◌++◌, length,
  take, drop, replicate, bit_and, Option, none, some,
}
use gosamba.Prelude.Assoc.{same_bytes}
use gosamba.Wire.{Bytes, nth, uint16, uint32, le16}
use gosamba.Ntlm.{AvPair, av_flags, decode_av_list, mic_offset, descriptors}

-- `hmac_md5 key msg` has 16 bytes; `utf16_units s` are the units of `utf16.Encode([]rune(s))`.
pub record Library : Type 0 where
  pub hmac_md5 : List ℕ → List ℕ → List ℕ
  pub to_upper : List ℕ → List ℕ
  pub utf16_units : List ℕ → List ℕ

abbrev pub units_le : List ℕ → List ℕ
units_le [] = []
units_le (c ∷ cs) = le16 c ++ units_le cs

unfoldable pub utf16le_upper : Library → List ℕ → List ℕ
utf16le_upper lib s = units_le (lib.utf16_units (lib.to_upper s))

unfoldable pub utf16le_domain : Library → List ℕ → List ℕ
utf16le_domain lib s = units_le (lib.utf16_units s)

unfoldable pub ntowfv2 : Library → List ℕ → List ℕ → List ℕ → List ℕ
ntowfv2 lib nt_hash username domain =
    lib.hmac_md5 nt_hash (utf16le_upper lib username ++ utf16le_domain lib domain)

-- The proof that the key of a user makes of a challenge and the rest of a response.
unfoldable pub nt_proof : Library → List ℕ → List ℕ → List ℕ → List ℕ → List ℕ → List ℕ
nt_proof lib nt_hash username domain challenge temp =
    lib.hmac_md5 (ntowfv2 lib nt_hash username domain) (challenge ++ temp)

-- The session base key, or `none` for `ErrAuthFailure`.
unfoldable pub verify_ntlmv2 :
    Library → List ℕ → List ℕ → List ℕ → List ℕ → List ℕ → Option (List ℕ)
verify_ntlmv2 lib nt_hash username domain challenge nt_response =
    let expected = nt_proof lib nt_hash username domain challenge (drop 16 nt_response) in
    if ltb (length nt_response) 24
    then none
    else if not (same_bytes (take 16 nt_response) expected)
    then none
    else some (lib.hmac_md5 (ntowfv2 lib nt_hash username domain) expected)

-- `binary.LittleEndian.Uint32`
abbrev pub double_word : List ℕ → ℕ
double_word v = nth 0 v + 256 * nth 1 v + 65536 * nth 2 v + 16777216 * nth 3 v

unfoldable pub flags_of : List AvPair → Option ℕ
flags_of [] = none
flags_of (p ∷ pairs) =
    if p.id == av_flags && leb 4 (length p.value)
    then some (double_word p.value)
    else flags_of pairs

abbrev pub flags_in : Option (List AvPair) → Option ℕ
flags_in none = none
flags_in (some pairs) = flags_of pairs

unfoldable pub msv_av_flags : List ℕ → Option ℕ
msv_av_flags nt_response =
    if ltb (length nt_response) 44 then none else flags_in (decode_av_list (drop 44 nt_response))

abbrev pub av_flag_mic_present : ℕ
av_flag_mic_present = 2

abbrev pub asserts_mic : Option ℕ → Bool
asserts_mic none = false
asserts_mic (some flags) = not (bit_and flags av_flag_mic_present == 0)

unfoldable pub mic_required : List ℕ → Bool
mic_required nt_response = asserts_mic (msv_av_flags nt_response)

-- The message with its MIC field zeroed, where it has one.
unfoldable pub without_mic : List ℕ → List ℕ
without_mic m =
    if leb (mic_offset + 16) (length m)
    then take mic_offset m ++ (replicate 16 0 ++ drop (mic_offset + 16) m)
    else m

unfoldable pub compute_mic : Library → List ℕ → List ℕ → List ℕ → List ℕ → List ℕ
compute_mic lib key negotiate challenge authenticate =
    lib.hmac_md5 key (negotiate ++ (challenge ++ without_mic authenticate))

unfoldable pub verify_mic : Library → List ℕ → List ℕ → List ℕ → List ℕ → List ℕ → Bool
verify_mic lib key negotiate challenge authenticate mic =
    same_bytes (compute_mic lib key negotiate challenge authenticate) mic

-- The furthest end of a payload field; `none` where a descriptor does not fit.
unfoldable pub furthest : Bytes → ℕ → List ℕ → Option ℕ
furthest b end [] = some end
furthest b end (off ∷ offs) =
    let l = uint16 b off in
    let o = uint32 b (off + 4) in
    let rest = furthest b (if not (l == 0) && ltb end (o + l) then o + l else end) offs in
    if ltb b.len (off + 8) then none else rest

abbrev pub length_by : Bytes → Option ℕ → ℕ
length_by b none = b.len
length_by b (some end) = if end == 0 then b.len else if ltb b.len end then b.len else end

unfoldable pub authenticate_len : Bytes → ℕ
authenticate_len b = length_by b (furthest b 0 descriptors)
