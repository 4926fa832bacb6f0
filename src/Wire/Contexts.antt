-- ===== src/Wire/Contexts.antt =====
-- Create contexts: their codec in internal/smb2/create.go, and the durable handle and lease requests
-- that internal/parent/durable.go reads from them. A buffer is the list of its bytes.
pub mod Reread
use gosamba.Prelude.{
  ℕ, zero, suc, ◌+◌, ◌-◌, ◌*◌, ◌%◌, Bool, true, false, ◌&&◌, ◌==◌, ltb, leb, if◌then◌else◌, List,
  [], ◌∷◌, ◌++◌, length, take, drop, replicate, Option, none, some,
}
use gosamba.Prelude.Assoc.{same_bytes}
use gosamba.Wire.{nth, le16, le32}

pub record Context : Type 0 where
  pub name : List ℕ
  pub data_ : List ℕ

abbrev pub uint16_at : List ℕ → ℕ → ℕ
uint16_at b i = nth i b + 256 * nth (suc i) b

abbrev pub uint32_at : List ℕ → ℕ → ℕ
uint32_at b i =
    nth i b
    + 256 * nth (suc i) b
    + 65536 * nth (suc (suc i)) b
    + 16777216 * nth (suc (suc (suc i))) b

-- The bytes at an offset of the entry, nothing where they do not lie in the buffer.
unfoldable pub field : List ℕ → ℕ → ℕ → List ℕ
field b off n = if ltb 0 n && leb (off + n) (length b) then take n (drop off b) else []

unfoldable pub read_context : List ℕ → Context
read_context b = record {
  name = field b (uint16_at b 4) (uint16_at b 6);
  data_ = field b (uint16_at b 10) (uint32_at b 12);
}

-- The contexts that the callback gets, from the bytes at the entry on. Every call of the source has a
-- callback that asks for more. The fuel bounds the entries, each of which is at least one byte on.
unfoldable pub iterate : ℕ → List ℕ → List Context
iterate zero b = []
iterate (suc fuel) b =
    let rest = iterate fuel (drop (uint32_at b 0) b) in
    if ltb (length b) 16
    then []
    else if uint32_at b 0 == 0
    then read_context b ∷ []
    else read_context b ∷ rest

unfoldable pub iterate_create_contexts : List ℕ → List Context
iterate_create_contexts raw = iterate (length raw) raw

-- Zeros up to the next multiple of 8.
abbrev pub pad8 : ℕ → List ℕ
pad8 n = replicate ((8 - n % 8) % 8) 0

unfoldable pub data_offset : Context → ℕ
data_offset c = 16 + length c.name + length (pad8 (16 + length c.name))

-- Name, padding and data, behind the 16 bytes of the entry's header.
unfoldable pub context_body : Context → List ℕ
context_body c = c.name ++ pad8 (16 + length c.name) ++ c.data_

-- The entry whose `Next` is given.
unfoldable pub encode_entry : ℕ → Context → List ℕ
encode_entry next c =
    le32 next
    ++ le16 16
    ++ le16 (length c.name)
    ++ (0 ∷ 0 ∷ le16 (data_offset c))
    ++ le32 (length c.data_)
    ++ context_body c

unfoldable pub entry_pad : Context → List ℕ
entry_pad c = pad8 (16 + length (context_body c))

unfoldable pub entry_size : Context → ℕ
entry_size c = 16 + length (context_body c) + length (entry_pad c)

-- Every entry but the last is padded and says where the next one starts.
unfoldable pub encode_create_contexts : List Context → List ℕ
encode_create_contexts [] = []
encode_create_contexts (c ∷ []) = encode_entry 0 c
encode_create_contexts (c ∷ d ∷ cs) =
    encode_entry (entry_size c) c ++ entry_pad c ++ encode_create_contexts (d ∷ cs)

-- `durableRequest`, `durableReconnect` and `leaseRequest`
pub record DurableRequest : Type 0 where
  pub present : Bool
  pub v2 : Bool
  pub timeout : ℕ
  pub flags : ℕ
  pub guid : List ℕ

pub record ReconnectRequest : Type 0 where
  pub present : Bool
  pub v2 : Bool
  pub file_id : List ℕ
  pub guid : List ℕ

pub record LeaseContext : Type 0 where
  pub present : Bool
  pub v2 : Bool
  pub key : List ℕ
  pub state : ℕ

abbrev pub zeros16 : List ℕ
zeros16 = replicate 16 0

pub record DurableContexts : Type 0 where
  pub request : DurableRequest
  pub reconnect : ReconnectRequest
  pub lease : LeaseContext

abbrev pub no_contexts : DurableContexts
no_contexts = record {
  request = record { present = false; v2 = false; timeout = 0; flags = 0; guid = zeros16 };
  reconnect = record { present = false; v2 = false; file_id = zeros16; guid = zeros16 };
  lease = record { present = false; v2 = false; key = zeros16; state = 0 };
}

-- "DH2Q", "DHnQ", "DH2C", "DHnC" and "RqLs"
abbrev pub tag_dh2q : List ℕ
tag_dh2q = 0x44 ∷ 0x48 ∷ 0x32 ∷ 0x51 ∷ []

abbrev pub tag_dhnq : List ℕ
tag_dhnq = 0x44 ∷ 0x48 ∷ 0x6E ∷ 0x51 ∷ []

abbrev pub tag_dh2c : List ℕ
tag_dh2c = 0x44 ∷ 0x48 ∷ 0x32 ∷ 0x43 ∷ []

abbrev pub tag_dhnc : List ℕ
tag_dhnc = 0x44 ∷ 0x48 ∷ 0x6E ∷ 0x43 ∷ []

abbrev pub tag_rqls : List ℕ
tag_rqls = 0x52 ∷ 0x71 ∷ 0x4C ∷ 0x73 ∷ []

-- The effect of one context on the three results. What a context does not set is kept.
unfoldable pub apply_context : Context → DurableContexts → DurableContexts
apply_context c r =
    let b = c.data_ in
    if same_bytes c.name tag_dh2q
    then (if leb 32 (length b)
        then record r {
          request = record {
            present = true;
            v2 = true;
            timeout = uint32_at b 0;
            flags = uint32_at b 4;
            guid = take 16 (drop 16 b);
          };
        }
        else r)
    else if same_bytes c.name tag_dhnq
    then record r { request = record r.request { present = true; v2 = false } }
    else if same_bytes c.name tag_dh2c
    then (if leb 36 (length b)
        then record r {
          reconnect = record {
            present = true;
            v2 = true;
            file_id = take 16 b;
            guid = take 16 (drop 16 b);
          };
        }
        else r)
    else if same_bytes c.name tag_dhnc
    then (if leb 16 (length b)
        then record r {
          reconnect = record r.reconnect { present = true; v2 = false; file_id = take 16 b };
        }
        else r)
    else if same_bytes c.name tag_rqls
    then (if leb 20 (length b)
        then record r {
          lease = record {
            present = true;
            v2 = leb 52 (length b);
            key = take 16 b;
            state = uint32_at b 16;
          };
        }
        else r)
    else r

abbrev pub apply_contexts : List Context → DurableContexts → DurableContexts
apply_contexts [] r = r
apply_contexts (c ∷ cs) r = apply_contexts cs (apply_context c r)

unfoldable pub parse_durable_contexts : List ℕ → DurableContexts
parse_durable_contexts raw = apply_contexts (iterate_create_contexts raw) no_contexts
