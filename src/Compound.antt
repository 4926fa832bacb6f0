-- ===== src/Compound.antt =====
-- Compounded responses: internal/parent/compound.go. A response is the list of its bytes behind the
-- reserved NBSS headroom, and a session is named by its number. What is sent goes to the writer.
pub mod Grouped
pub mod Linked
use gosamba.Prelude.{
  ℕ, zero, suc, ◌+◌, ◌-◌, ◌%◌, ◌^◌, Bool, true, false, not, ◌&&◌, ◌||◌, ◌==◌, ltb, bool_eq,
  if◌then◌else◌, List, [], ◌∷◌, ◌++◌, length, take, drop, replicate, Option, none, some,
}
use gosamba.Wire.{le32}
use gosamba.Connection.{bytes_of}
use gosamba.Crypto.Sign.{Primitives, sign_message, all_bytes}

-- `pendingMsg`
pub record PendingMsg : Type 0 where
  pub msg : List ℕ
  pub session : Option ℕ
  pub encrypt : Bool

-- What goes on the wire: a frame in the clear, or what is wrapped in one transform header.
pub data Sent : Type 0 where
  in_clear : List ℕ → Sent
  encrypted : Option ℕ → List ℕ → Sent

-- How a connection signs: the algorithm that was negotiated, and the signing key of each session.
pub record Signing : Type 0 where
  pub primitives : Primitives
  pub algo : ℕ
  pub key_of : ℕ → List ℕ

unfoldable pub pad_to8 : ℕ → ℕ
pad_to8 n = let r = n % 8 in if not (r == 0) then n + 8 - r else n

unfoldable pub compound_member_len : List ℕ → Bool → ℕ
compound_member_len msg last = if last then length msg else pad_to8 (length msg)

unfoldable pub signed_with : Signing → List ℕ → List ℕ → List ℕ
signed_with g key msg =
    if length key == 0 then msg else all_bytes (sign_message g.primitives g.algo key (bytes_of msg))

abbrev pub sign_response : Signing → Option ℕ → List ℕ → List ℕ
sign_response g none msg = msg
sign_response g (some s) msg = signed_with g (g.key_of s) msg

-- `PutUint32(msg[20:], next)`
unfoldable pub put_next : ℕ → List ℕ → List ℕ
put_next next msg = take 20 msg ++ (le32 next ++ drop 24 msg)

-- One member in its place: padded with zeros, told where the next one starts, and signed.
unfoldable pub member : Signing → PendingMsg → Bool → List ℕ
member g m last =
    let n = compound_member_len m.msg last in
    let msg = m.msg ++ replicate (n - length m.msg) 0 in
    let msg = put_next (if last then 0 else n % 2 ^ 32) msg in
    if not m.encrypt then sign_response g m.session msg else msg

unfoldable pub members : Signing → List PendingMsg → List (List ℕ)
members g [] = []
members g (m ∷ []) = member g m true ∷ []
members g (m ∷ k ∷ ms) = member g m false ∷ members g (k ∷ ms)

abbrev pub concat : List (List ℕ) → List ℕ
concat [] = []
concat (b ∷ bs) = b ++ concat bs

unfoldable pub seal_and_send : Signing → PendingMsg → Sent
seal_and_send g m =
    if m.encrypt then encrypted m.session m.msg else in_clear (sign_response g m.session m.msg)

-- One group of responses of one session and one decision on encryption, that of the first.
unfoldable pub send_compound : Signing → PendingMsg → List PendingMsg → Sent
send_compound g m [] = seal_and_send g m
send_compound g m (k ∷ ms) =
    let out = concat (members g (m ∷ k ∷ ms)) in
    if m.encrypt then encrypted m.session out else in_clear out

abbrev pub same_session : Option ℕ → Option ℕ → Bool
same_session none none = true
same_session none (some t) = false
same_session (some s) none = false
same_session (some s) (some t) = s == t

-- A response that may share the frame of the first.
abbrev pub goes_with : PendingMsg → PendingMsg → Bool
goes_with first m = same_session m.session first.session && bool_eq m.encrypt first.encrypt

-- The responses up to the first that may not, and the rest.
unfoldable pub span : PendingMsg → List PendingMsg → List PendingMsg × List PendingMsg
span first [] = ([], [])
span first (m ∷ ms) =
    let (group, rest) = span first ms in
    if goes_with first m then (m ∷ group, rest) else ([], m ∷ ms)

-- The groups that `flush` sends, each with its first response. A group has at least one, which bounds
-- their number by that of the responses.
unfoldable pub groups : ℕ → List PendingMsg → List (PendingMsg × List PendingMsg)
groups zero ms = []
groups (suc fuel) [] = []
groups (suc fuel) (m ∷ ms) = let rest = groups fuel (span m ms).1 in (m, (span m ms).0) ∷ rest

abbrev pub send_groups : Signing → List (PendingMsg × List PendingMsg) → List Sent
send_groups g [] = []
send_groups g ((m, ms) ∷ gs) = send_compound g m ms ∷ send_groups g gs

unfoldable pub flush : Signing → List PendingMsg → List Sent
flush g msgs = send_groups g (groups (length msgs) msgs)
