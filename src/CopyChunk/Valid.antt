-- ===== src/CopyChunk/Valid.antt =====
-- What a request that passes the validation asks for.
use gosamba.Prelude.{
  ℕ, ◌+◌, ◌*◌, ◌%◌, ◌^◌, ◌≤◌, ◌<◌, ◌≡◌, ◌↔◌, refl, ap, sym, ◌∙◌, List, [], ◌∷◌, Option, none, some,
  All, arith,
}
use gosamba.CopyChunk.{SrvCopyChunk, over_limits, out_of_range, or_else, validate_copy_chunks}

-- The sum of the lengths.
abbrev pub total : List SrvCopyChunk → ℕ
total [] = 0
total (ch ∷ chunks) = ch.len + total chunks

-- A chunk as the wire gives it: 64-bit offsets and a 32-bit length.
abbrev pub IsChunk : SrvCopyChunk → Type 0
IsChunk ch = (ch.source_offset < 2 ^ 64) × (ch.target_offset < 2 ^ 64) × (ch.len < 2 ^ 32)

-- The lengths are within the server's ceilings.
abbrev pub Modest : List SrvCopyChunk → Type 0
Modest = All (λ ch. (0 < ch.len) × (ch.len ≤ 2 ^ 20))

-- The source range lies in the file, and both ranges below the last file offset.
abbrev pub InFile : ℕ → List SrvCopyChunk → Type 0
InFile size = All (λ ch.
    (ch.source_offset + ch.len ≤ size)
    × (ch.source_offset + ch.len < 2 ^ 63)
    × (ch.target_offset + ch.len < 2 ^ 63))

over_limits_iff :
    (n : ℕ) (chunks : List SrvCopyChunk)
    → n ≤ 16 * 2 ^ 20
    → (over_limits n chunks ≡ none) ↔ (Modest chunks × (n + total chunks ≤ 16 * 2 ^ 20))
unfolding over_limits
over_limits_iff n [] h = (λ e. (tt, omega arith), λ m. refl)
over_limits_iff n (ch ∷ chunks) h = (
  λ e.
      let small : ch.len ≤ 2 ^ 20 = ground arith in
      let whole : (n + ch.len) % 2 ^ 64 ≡ n + ch.len = omega arith in
      let fits : n + ch.len ≤ 16 * 2 ^ 20 = ground arith in
      let behind : over_limits ((n + ch.len) % 2 ^ 64) chunks ≡ none = ground arith in
      let r =
        (over_limits_iff (n + ch.len) chunks fits).0
          (ap (λ k. over_limits k chunks) (sym whole) ∙ behind) in
      (((ground arith, small), r.0), omega (arith, r.1)),
  λ m.
      let small = m.0.0 in
      let whole : (n + ch.len) % 2 ^ 64 ≡ n + ch.len = omega (arith, small.1) in
      let fits : n + ch.len ≤ 16 * 2 ^ 20 = omega (arith, m.1) in
      let r : over_limits ((n + ch.len) % 2 ^ 64) chunks ≡ none =
        ap (λ k. over_limits k chunks) whole
        ∙ (over_limits_iff (n + ch.len) chunks fits).1 (m.0.1, omega (arith, m.1)) in
      ground (arith, r, small, whole, fits),
)

out_of_range_iff :
    (size : ℕ) (chunks : List SrvCopyChunk)
    → All IsChunk chunks
    → (out_of_range size chunks ≡ none) ↔ InFile size chunks
unfolding out_of_range
out_of_range_iff size [] w = (λ e. tt, λ m. refl)
out_of_range_iff size (ch ∷ chunks) w =
    let i = out_of_range_iff size chunks w.1 in
    let wide = w.0 in
    (
      λ e. ((ground arith, ground arith, ground arith), i.0 (ground arith)),
      λ m. let r = i.1 m.1 in let k = m.0 in ground (arith, r, k),
    )

or_else_iff : (a b : Option ℕ) → (or_else a b ≡ none) ↔ ((a ≡ none) × (b ≡ none))
or_else_iff none b = (λ e. (refl, e), λ m. m.1)
or_else_iff (some s) b = (λ e. absurd (ground arith), λ m. absurd (ground (arith, m.0)))

-- For chunks as the wire can give them, the validation passes exactly if no chunk is empty or above
-- 1 MiB, they are at most 16 MiB together, and each source range lies in the source file, with both
-- ranges below the last file offset. No 64-bit sum that wraps lets a chunk through.
pub validate_copy_chunks_iff :
    (chunks : List SrvCopyChunk) (src_size : ℕ)
    → All IsChunk chunks
    → (validate_copy_chunks chunks src_size ≡ none)
      ↔ ((Modest chunks × (total chunks ≤ 16 * 2 ^ 20)) × InFile src_size chunks)
unfolding validate_copy_chunks
validate_copy_chunks_iff chunks src_size w =
    let a = over_limits_iff 0 chunks (omega arith) in
    let b = out_of_range_iff src_size chunks w in
    let c = or_else_iff (over_limits 0 chunks) (out_of_range src_size chunks) in
    (
      λ e. let (x, y) = c.0 e in let m = a.0 x in ((m.0, omega (arith, m.1)), b.0 y),
      λ m. c.1 (a.1 (m.0.0, omega (arith, m.0.1)), b.1 m.1),
    )
