-- ===== src/Ntlm/Text.antt =====
-- What is read back of a name in UTF-16.
use gosamba.Prelude.{
  ℕ, ◌+◌, ◌-◌, ◌*◌, ◌/◌, ◌%◌, ◌^◌, ◌≤◌, ◌<◌, ◌≡◌, refl, ap, ◌∙◌, inl, inr, ltb, if◌then◌else◌, List,
  [], ◌∷◌, ◌++◌, All, arith, Bool-cases,
}
use gosamba.Wire.{le16}
use gosamba.Ntlm.{utf16le_rune, utf16le, utf8_rune, decode_utf16le}

-- A Unicode code point.
abbrev pub IsRune : ℕ → Type 0
IsRune r = r < 0x110000

-- The runes as they come back: a rune above U+FFFF as two replacement characters.
unfoldable pub replaced : List ℕ → List ℕ
replaced [] = []
replaced (r ∷ rs) = if ltb 0xFFFF r then 0xFFFD ∷ 0xFFFD ∷ replaced rs else r ∷ replaced rs

unfoldable pub utf8 : List ℕ → List ℕ
utf8 [] = []
utf8 (r ∷ rs) = utf8_rune r ++ utf8 rs

decode_word :
    (w : ℕ) (rest : List ℕ)
    → w < 65536
    → decode_utf16le (le16 w ++ rest) ≡ utf8_rune w ++ decode_utf16le rest
unfolding decode_utf16le
decode_word w rest h =
    let whole : w % 256 + 256 * (w / 256 % 256) ≡ w = omega arith in
    ap (λ x. utf8_rune x ++ decode_utf16le rest) whole

surrogate-replaced : (w : ℕ) → 0xD800 ≤ w → w < 0xE000 → utf8_rune w ≡ utf8_rune 0xFFFD
unfolding utf8_rune
surrogate-replaced w low high = ground arith

-- Decoding the UTF-16 spelling of a text gives its UTF-8, except that each rune above U+FFFF comes
-- back as two replacement characters.
pub decode_utf16le-utf16le :
    (rs : List ℕ) → All IsRune rs → decode_utf16le (utf16le rs) ≡ utf8 (replaced rs)
unfolding utf16le utf16le_rune replaced utf8
decode_utf16le-utf16le [] w = unfold decode_utf16le in refl
decode_utf16le-utf16le (r ∷ rs) (rune, w) = elim (Bool-cases (ltb 0xFFFF r)) [
  | inr narrow ↦ rw narrow (
      decode_word r (utf16le rs) (ground arith)
      ∙ ap (λ t. utf8_rune r ++ t) (decode_utf16le-utf16le rs w))
  | inl wide ↦
      let high : ℕ = 0xD800 + (r - 0x10000) / 1024 % 2 ^ 16 in
      let low : ℕ = 0xDC00 + (r - 0x10000) % 1024 in
      let rest = utf16le rs in
      rw wide (
        decode_word high (le16 low ++ rest) (omega arith)
        ∙ ap (λ t. utf8_rune high ++ t)
            (decode_word low rest (omega arith)
              ∙ ap (λ t. utf8_rune low ++ t) (decode_utf16le-utf16le rs w))
        ∙ ap (λ t. t ++ (utf8_rune low ++ utf8 (replaced rs)))
            (surrogate-replaced high (omega arith) (omega arith))
        ∙ ap (λ t. utf8_rune 0xFFFD ++ (t ++ utf8 (replaced rs)))
            (surrogate-replaced low (omega arith) (omega arith)))
]
