-- ===== src/Ntlm/Fields.antt =====
-- Which AUTHENTICATE messages are accepted.
use gosamba.Prelude.{
  ℕ, zero, suc, ◌-◌, ◌+◌, ◌^◌, ◌≤◌, ◌≡◌, ◌↔◌, ◌⊎◌, refl, ap, sym, ◌∙◌, inl, inr, true, false, ltb,
  ◌==◌, if◌then◌else◌, List, [], ◌∷◌, All, arith, replicate, ◌&&◌, Bool-cases,
}
use gosamba.Prelude.Assoc.{same_bytes, same_bytes_iff}
use gosamba.Wire.{Bytes, slice, uint16, uint32}
use gosamba.Ntlm.{
  signature, NtlmError, Parsed, ◌>>=◌, AuthenticateMessage, read_field, descriptors, decode_fields,
  decode_authenticate, carries_mic, text_of, err_short_message, smallest_from,
  smallest_payload_offset,
}

-- The payload field of a descriptor is empty or lies in the message.
abbrev pub InMessage : Bytes → ℕ → Type 0
InMessage b off = (uint16 b off ≡ 0) ⊎ (uint32 b (off + 4) + uint16 b off ≤ b.len)

-- What the descriptor says.
abbrev pub field_of : Bytes → ℕ → List ℕ
field_of b off = slice b (uint32 b (off + 4)) (uint16 b off)

-- An AUTHENTICATE message whose fields all lie in it.
abbrev pub WellFormed : Bytes → Type 0
WellFormed b =
    (64 ≤ b.len) × (slice b 0 8 ≡ signature) × (uint32 b 8 ≡ 3) × All (InMessage b) descriptors

read_field-cases :
    (b : Bytes) (off : ℕ)
    → (InMessage b off × (read_field b off ≡ inr (field_of b off)))
      ⊎ ((InMessage b off → ⊥) × (e : NtlmError) × (read_field b off ≡ inl e))
unfolding read_field slice
read_field-cases b off =
    let l = uint16 b off in
    let o = uint32 b (off + 4) in
    elim (Bool-cases (l == 0)) [
      | inl empty ↦
          let none_ : l ≡ 0 = ground arith in
          inl (inl none_, rw empty (ap (λ n. inr (slice b o n)) (sym none_)))
      | inr some_ ↦ elim (Bool-cases (ltb b.len (o + l))) [
        | inl past ↦ inr (
          (λ h. elim h [ inl z ↦ absurd (ground arith) | inr fits ↦ absurd (ground arith) ]),
          err_short_message,
          rw some_ (rw past refl),
        )
        | inr fits ↦ inl (inr (ground arith), rw some_ (rw fits refl))
      ]
    ]

pub read_field-reads :
    (b : Bytes) (off : ℕ) → InMessage b off → read_field b off ≡ inr (field_of b off)
read_field-reads b off h = elim (read_field-cases b off) [
  | inl (at, e) ↦ e
  | inr (out, e, f) ↦ absurd (out h)
]

read_field-InMessage :
    (b : Bytes) (off : ℕ) {raw : List ℕ} → read_field b off ≡ inr raw → InMessage b off
read_field-InMessage b off h = elim (read_field-cases b off) [
  | inl (at, e) ↦ at
  | inr (out, e, f) ↦ cc
]

>>=-eq-inr {ℓ κ} :
    {A : Type ℓ} {B : Type κ} (m : Parsed A) (f : A → Parsed B) {x : B}
    → (m >>= f) ≡ inr x
    → (a : A) × (m ≡ inr a) × (f a ≡ inr x)
>>=-eq-inr (inl e) f h = cc
>>=-eq-inr (inr a) f h = (a, refl, h)

-- What a well-formed message says.
abbrev pub message_of : Bytes → AuthenticateMessage
message_of b = record {
  lm_response = field_of b 12;
  nt_response = field_of b 20;
  domain_name = text_of (uint32 b 60) (field_of b 28);
  user_name = text_of (uint32 b 60) (field_of b 36);
  workstation = text_of (uint32 b 60) (field_of b 44);
  encrypted_random_session_key = field_of b 52;
  flags = uint32 b 60;
  mic = if carries_mic b then slice b 72 16 else replicate 16 0;
  has_mic = carries_mic b;
}

decode_fields-reads :
    (b : Bytes) → All (InMessage b) descriptors → decode_fields b ≡ inr (message_of b)
unfolding decode_fields
decode_fields-reads b (lm, (nt, (dom, (usr, (wks, (key, end)))))) =
    rw
      (
        read_field-reads b 12 lm,
        read_field-reads b 20 nt,
        read_field-reads b 28 dom,
        read_field-reads b 36 usr,
        read_field-reads b 44 wks,
        read_field-reads b 52 key,
      )
      refl

decode_fields-InMessage :
    (b : Bytes) {m : AuthenticateMessage} → decode_fields b ≡ inr m → All (InMessage b) descriptors
unfolding decode_fields
decode_fields-InMessage b h =
    let (lm, e0, h0) = >>=-eq-inr (read_field b 12) _ h in
    let (nt, e1, h1) = >>=-eq-inr (read_field b 20) _ h0 in
    let (dom, e2, h2) = >>=-eq-inr (read_field b 28) _ h1 in
    let (usr, e3, h3) = >>=-eq-inr (read_field b 36) _ h2 in
    let (wks, e4, h4) = >>=-eq-inr (read_field b 44) _ h3 in
    let (key, e5, h5) = >>=-eq-inr (read_field b 52) _ h4 in
    (
      read_field-InMessage b 12 e0,
      (
        read_field-InMessage b 20 e1,
        (
          read_field-InMessage b 28 e2,
          (
            read_field-InMessage b 36 e3,
            (read_field-InMessage b 44 e4, (read_field-InMessage b 52 e5, tt)),
          ),
        ),
      ),
    )

-- No payload field starts in the first 88 bytes, which hold the MIC.
abbrev pub Clear : Bytes → ℕ → Type 0
Clear b off = (uint16 b off ≡ 0) ⊎ (88 ≤ uint32 b (off + 4))

abbrev lowered : ℕ → ℕ → ℕ → ℕ
lowered l o min = if ltb 0 l && ltb o min then o else min

lowered_iff : (l o min : ℕ) → (88 ≤ lowered l o min) ↔ ((88 ≤ min) × ((l ≡ 0) ⊎ (88 ≤ o)))
lowered_iff zero o min = (λ h. (ground arith, inl refl), λ h. ground (arith, h.0))
lowered_iff (suc l) o min =
    let some_ : ltb 0 (suc l) ≡ true = ground arith in
    elim (Bool-cases (ltb o min)) [
      | inl less ↦
          rw (some_, less)
            (
              λ h. (ground arith, inr h),
              λ h. elim h.1 [ inl z ↦ absurd (omega (arith, z)) | inr big ↦ big ],
            )
      | inr more ↦ rw (some_, more) (λ h. (h, inr (ground arith)), λ h. h.0)
    ]

smallest_from_iff :
    (b : Bytes) (min : ℕ) (offs : List ℕ)
    → All (λ off. off + 8 ≤ b.len) offs
    → (88 ≤ smallest_from b min offs) ↔ ((88 ≤ min) × All (Clear b) offs)
unfolding smallest_from
smallest_from_iff b min [] w = (λ h. (h, tt), λ h. h.0)
smallest_from_iff b min (off ∷ offs) (here, w) =
    let l = uint16 b off in
    let o = uint32 b (off + 4) in
    let i = smallest_from_iff b (lowered l o min) offs w in
    let k = lowered_iff l o min in
    let room : ltb b.len (off + 8) ≡ false = ground arith in
    rw room (
      λ h. let (big, rest) = i.0 h in let (m, c) = k.0 big in (m, (c, rest)),
      λ h. i.1 (k.1 (h.0, h.1.0), h.1.1),
    )

-- The six descriptors leave the MIC its place.
abbrev pub HasRoom : Bytes → Type 0
HasRoom b = (88 ≤ b.len) × All (Clear b) descriptors

carries_mic_iff : (b : Bytes) → 64 ≤ b.len → (carries_mic b ≡ true) ↔ HasRoom b
unfolding carries_mic smallest_payload_offset
carries_mic_iff b h =
    let i = smallest_from_iff b (2 ^ 63 - 1) descriptors (
      omega arith,
      (omega arith, (omega arith, (omega arith, (omega arith, (omega arith, tt))))),
    ) in
    let s = smallest_from b (2 ^ 63 - 1) descriptors in
    (
      λ e. (ground arith, (i.0 (ground arith)).1),
      λ r. let big = i.1 (omega arith, r.1) in ground (arith, r.0, big),
    )

inr_inj : {x y : AuthenticateMessage} → ◌≡◌ {A = Parsed AuthenticateMessage} (inr x) (inr y) → x ≡ y
inr_inj e = cc

-- A message is accepted exactly if it has 64 bytes, the signature and the type of an AUTHENTICATE
-- message, and each payload field that is not empty lies in it. What is read are the bytes of the
-- fields, as text where they are text, and a MIC exactly if the message has 88 bytes and no field
-- that is not empty starts in them.
pub decode_authenticate_iff :
    (b : Bytes) (m : AuthenticateMessage)
    → (decode_authenticate b ≡ inr m)
      ↔ (WellFormed b × (m ≡ message_of b) × ((m.has_mic ≡ true) ↔ HasRoom b))
unfolding decode_authenticate
decode_authenticate_iff b m = (
  λ h.
      let long : 64 ≤ b.len = ground arith in
      let sig : same_bytes (slice b 0 8) signature ≡ true = ground arith in
      let kind : uint32 b 8 ≡ 3 = ground arith in
      let body : decode_fields b ≡ inr m = ground arith in
      let fields = decode_fields-InMessage b body in
      let same : m ≡ message_of b = inr_inj (sym body ∙ decode_fields-reads b fields) in
      let mic = carries_mic_iff b long in
      (
        (long, (same_bytes_iff (slice b 0 8) signature).0 sig, kind, fields),
        same,
        (λ e. mic.0 (sym (ap (λ x. x.has_mic) same) ∙ e), λ r. ap (λ x. x.has_mic) same ∙ mic.1 r),
      ),
  λ h.
      let (long, sig, kind, fields) = h.0 in
      let body = decode_fields-reads b fields ∙ ap inr (sym h.1) in
      let same = (same_bytes_iff (slice b 0 8) signature).1 sig in
      let enough : ltb b.len 64 ≡ false = ground arith in
      let type_ : (uint32 b 8 == 3) ≡ true = ground (arith, kind) in
      rw enough (rw same (rw type_ body)),
)
