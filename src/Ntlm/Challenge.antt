-- ===== src/Ntlm/Challenge.antt =====
-- The CHALLENGE message of internal/ntlm/messages.go: EncodeChallenge.
use gosamba.Prelude.{
  ℕ, zero, suc, ◌+◌, ◌<◌, ◌≤◌, ◌^◌, ◌≡◌, refl, sym, ap, ◌∙◌, List, [], ◌∷◌, ◌++◌, length, replicate,
  All, some, inr, arith, length-append, append_assoc, append-nil,
}
use gosamba.Ntlm.Fields.{read_field-reads}
use gosamba.Wire.{Bytes, nth, slice, uint16, uint32, le16, le32}
use gosamba.Connection.{bytes_of}
use gosamba.Ntlm.{AvPair, signature, encode_av_list, decode_av_list, utf16le, read_field}
use gosamba.Ntlm.Pairs.{Fits, decode_av_list-encode}

abbrev pub message_type_challenge : ℕ
message_type_challenge = 2

-- The target's name is given by its runes; the challenge has 8 bytes.
pub record ChallengeMessage : Type 0 where
  pub target_name : List ℕ
  pub flags : ℕ
  pub challenge : List ℕ
  pub target_info : List AvPair

abbrev pub fixed_size : ℕ
fixed_size = 56

-- The descriptor of a payload field; its lengths are cut to 16 bits.
abbrev pub descriptor : ℕ → ℕ → List ℕ
descriptor n o = le16 n ++ (le16 n ++ le32 o)

-- The fixed part, by the lengths of the two fields.
abbrev pub fixed_part : ChallengeMessage → ℕ → ℕ → List ℕ
fixed_part m name_len info_len =
    signature
    ++ (le32 message_type_challenge
        ++ (descriptor name_len fixed_size
            ++ (le32 m.flags
                ++ (m.challenge
                    ++ (replicate 8 0
                        ++ (descriptor info_len (fixed_size + name_len)
                            ++ (10 ∷ 0 ∷ (le16 22000 ++ (0 ∷ 0 ∷ 0 ∷ 15 ∷ [])))))))))

unfoldable pub encode_challenge : ChallengeMessage → List ℕ
encode_challenge m =
    let target_name = utf16le m.target_name in
    let av_bytes = encode_av_list m.target_info in
    fixed_part m (length target_name) (length av_bytes) ++ (target_name ++ av_bytes)

slice-tail :
    (x : ℕ) (xs : List ℕ) (k n : ℕ) → slice (bytes_of (x ∷ xs)) (suc k) n ≡ slice (bytes_of xs) k n
unfolding slice
slice-tail x xs k zero = refl
slice-tail x xs k (suc n) = ap (◌∷◌ (nth k xs)) (slice-tail x xs (suc k) n)

slice-front : (mid post : List ℕ) → slice (bytes_of (mid ++ post)) 0 (length mid) ≡ mid
unfolding slice
slice-front [] post = refl
slice-front (x ∷ mid) post =
    ap (◌∷◌ x) (slice-tail x (mid ++ post) 0 (length mid) ∙ slice-front mid post)

-- The bytes between a prefix and a rest.
slice-middle :
    (pre mid post : List ℕ)
    → slice (bytes_of (pre ++ (mid ++ post))) (length pre) (length mid) ≡ mid
slice-middle [] mid post = slice-front mid post
slice-middle (x ∷ pre) mid post =
    slice-tail x (pre ++ (mid ++ post)) (length pre) (length mid) ∙ slice-middle pre mid post

slice-last :
    (pre mid post : List ℕ)
    → slice (bytes_of (pre ++ (mid ++ post))) (length pre + length mid) (length post) ≡ post
slice-last pre mid post =
    let whole : (pre ++ mid) ++ (post ++ []) ≡ pre ++ (mid ++ post) =
      ap (λ t. (pre ++ mid) ++ t) (append-nil post) ∙ append_assoc pre mid post in
    (λ i. slice (bytes_of (sym whole i)) (sym (length-append pre mid) i) (length post))
    ∙ slice-middle (pre ++ mid) post []

-- What a client reads of the message.
pub record Reads (m : ChallengeMessage) (message : List ℕ) : Type 0 where
  pub sign : slice (bytes_of message) 0 8 ≡ signature
  pub kind : uint32 (bytes_of message) 8 ≡ message_type_challenge
  pub flags : uint32 (bytes_of message) 20 ≡ m.flags
  pub challenge : slice (bytes_of message) 24 8 ≡ m.challenge
  pub target_name : read_field (bytes_of message) 12 ≡ inr (utf16le m.target_name)
  pub target_info :
      (raw : List ℕ) × (read_field (bytes_of message) 40 ≡ inr raw)
      × (decode_av_list raw ≡ some m.target_info)

-- A field whose descriptor is right is read.
read_field-carried :
    (b : Bytes) (off o n : ℕ) (raw : List ℕ)
    → uint16 b off ≡ n
    → uint32 b (off + 4) ≡ o
    → o + n ≤ b.len
    → slice b o n ≡ raw
    → read_field b off ≡ inr raw
read_field-carried b off o n raw size start fits at =
    read_field-reads b off (inr (omega (arith, size, start, fits)))
    ∙ ap inr ((λ i. slice b (start i) (size i)) ∙ at)

-- Eight bytes, one by one.
eight :
    (P : List ℕ → Type 0)
    → ((a b c d e f g h : ℕ) → P (a ∷ b ∷ c ∷ d ∷ e ∷ f ∷ g ∷ h ∷ []))
    → (xs : List ℕ) → length xs ≡ 8
    → P xs
eight P k (a ∷ b ∷ c ∷ d ∷ e ∷ f ∷ g ∷ h ∷ []) n = k a b c d e f g h
eight P k [] n = absurd (omega arith)
eight P k (a ∷ []) n = absurd (omega arith)
eight P k (a ∷ b ∷ []) n = absurd (omega arith)
eight P k (a ∷ b ∷ c ∷ []) n = absurd (omega arith)
eight P k (a ∷ b ∷ c ∷ d ∷ []) n = absurd (omega arith)
eight P k (a ∷ b ∷ c ∷ d ∷ e ∷ []) n = absurd (omega arith)
eight P k (a ∷ b ∷ c ∷ d ∷ e ∷ f ∷ []) n = absurd (omega arith)
eight P k (a ∷ b ∷ c ∷ d ∷ e ∷ f ∷ g ∷ []) n = absurd (omega arith)
eight P k (a ∷ b ∷ c ∷ d ∷ e ∷ f ∷ g ∷ h ∷ i ∷ xs) n = absurd (omega arith)

abbrev message_with : List ℕ → ℕ → List AvPair → List ℕ → ChallengeMessage
message_with name flags info c = record {
  target_name = name;
  flags = flags;
  challenge = c;
  target_info = info;
}

read-bytes :
    (name : List ℕ) (flags : ℕ) (info : List AvPair)
    → flags < 2 ^ 32
    → length (utf16le name) < 65536
    → length (encode_av_list info) < 65536
    → All Fits info
    → (a b c d e f g h : ℕ)
    → Reads
        (message_with name flags info (a ∷ b ∷ c ∷ d ∷ e ∷ f ∷ g ∷ h ∷ []))
        (encode_challenge (message_with name flags info (a ∷ b ∷ c ∷ d ∷ e ∷ f ∷ g ∷ h ∷ [])))
unfolding encode_challenge slice uint16 uint32
read-bytes name flags info flag_bits name_fits info_fits w a b c d e f g h =
    let m = message_with name flags info (a ∷ b ∷ c ∷ d ∷ e ∷ f ∷ g ∷ h ∷ []) in
    let tn = utf16le name in
    let av = encode_av_list info in
    let fixed = fixed_part m (length tn) (length av) in
    let message = fixed ++ (tn ++ av) in
    let sizes = length-append tn av in
    let total : length message ≡ 56 + length tn + length av = omega (arith, sizes) in
    let name_at : slice (bytes_of message) 56 (length tn) ≡ tn = slice-middle fixed tn av in
    let info_at : slice (bytes_of message) (56 + length tn) (length av) ≡ av =
      slice-last fixed tn av in
    let pairs_at : decode_av_list av ≡ some info =
      ap decode_av_list (sym (append-nil av)) ∙ decode_av_list-encode info [] w in
    record {
      sign = refl;
      kind = refl;
      flags = omega (arith, flag_bits);
      challenge = refl;
      target_name =
          read_field-carried (bytes_of message) 12 56 (length tn) tn (omega (arith, name_fits)) refl
            (omega (arith, total)) name_at;
      target_info = (
        av,
        read_field-carried (bytes_of message) 40 (56 + length tn) (length av) av
            (omega (arith, info_fits)) (omega (arith, name_fits)) (omega (arith, total)) info_at,
        pairs_at,
      );
    }

-- Where the challenge has 8 bytes, the flags 32 bits, both fields a length of 16 bits, and each pair
-- an id of 16 bits other than the end's and a value of 16-bit length, the message that EncodeChallenge
-- writes has the signature, the type, the flags and the challenge in their places, and its
-- descriptors lead to the name in UTF-16 and to the list of the pairs.
pub encode_challenge-Reads :
    (m : ChallengeMessage)
    → length m.challenge ≡ 8
    → m.flags < 2 ^ 32
    → length (utf16le m.target_name) < 65536
    → length (encode_av_list m.target_info) < 65536
    → All Fits m.target_info
    → Reads m (encode_challenge m)
encode_challenge-Reads m n flags name info w =
    eight
      (λ c.
        Reads (message_with m.target_name m.flags m.target_info c)
          (encode_challenge (message_with m.target_name m.flags m.target_info c)))
      (read-bytes m.target_name m.flags m.target_info flags name info w) m.challenge n
