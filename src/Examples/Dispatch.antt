-- ===== src/Examples/Dispatch.antt =====
-- A related chain: a QUERY_INFO that fails on the handle of a CREATE, and the CLOSE behind it.
use gosamba.Prelude.{ℕ, ◌≡◌, ◌↔◌, refl, true, false, List, [], replicate, some, arith}
use gosamba.Wire.{Bytes, slice, copy}
use gosamba.Wire.Header.{Header}
use gosamba.Sessions.{Session}
use gosamba.Dispatch.{
  Policy, Chain, runs, dispatch_gate, checked_sender, resolve_related, encryption_exempt,
  has_previous_handle_sentinel, sentinel_at, file_id_offset_in_body,
  substitute_previous_handle_file_id,
}
use gosamba.Dispatch.Gate.{Trusted, Meets, HasKeys, dispatch_gate-runs_iff}
use gosamba.Dispatch.Related.{Members, here, next, is_run, names, dispatch_gate-closes}

abbrev policy : Policy
policy = record {
  require_encryption = true;
  require_signing = true;
  signing_algo = 0;
  primitives = record {
    hmac = λ k m. replicate 32 1;
    encrypt = λ k b. b;
    seal = λ k n a. replicate 16 2;
  };
}

abbrev session : Session
session = record {
  id = 5;
  user_name = [];
  is_guest = false;
  authenticated = true;
  signing_key = replicate 16 7;
  trees = [];
  opens = [];
  dead = false;
  next_tree_id = 0;
}

abbrev id : List ℕ
id = replicate 16 4

-- The chain after its CREATE, in an encrypted frame.
abbrev created : Chain
created = record {
  last_created_file_id = id;
  has_last_created = true;
  last_chain_status = 0;
  encrypt_chain = true;
}

abbrev failed : Chain
failed = record created { last_chain_status = 0xC0000003 }

-- A related operation.
abbrev header : ℕ → Header
header command = record {
  credit_charge = 1;
  status = 0;
  command = command;
  credit_response = 1;
  flags = 4;
  next_command = 0;
  message_id = 9;
  tree_id = 2;
  session_id = 5;
  signature = replicate 16 0;
}

-- The sentinel everywhere.
abbrev body : Bytes
body = record { len = 40; at = λ i. 0xFF }

abbrev frame : Bytes
frame = record { len = 104; at = λ i. 0xFF }

query_runs :
    dispatch_gate policy created (some session) (header 0x0010) body frame
    ≡ runs created (copy 24 id body)
unfolding dispatch_gate checked_sender resolve_related encryption_exempt
    has_previous_handle_sentinel sentinel_at file_id_offset_in_body
    substitute_previous_handle_file_id slice
query_runs = refl

failed-Members : Members policy (some session) created failed
unfolding has_previous_handle_sentinel sentinel_at file_id_offset_in_body slice
failed-Members = next here (
    is_run created (header 0x0010) body frame created (copy 24 id body) 0xC0000003 query_runs
      (λ e. absurd (omega (arith, e))) refl)

meets : HasKeys session → Meets policy failed session (header 0x0006) frame
meets keys = record { encrypted = λ r x. refl; signed = λ c r. absurd (ground arith) }

trusted : Trusted policy failed (some session) (header 0x0006) frame
trusted = record { session = session; on_connection = refl; authenticated = refl; meets = meets }

dispatch_gate-closes_example :
    (dispatch_gate policy failed (some session) (header 0x0006) body frame
      ≡ runs (record failed { has_last_created = false }) (names id body))
    × (slice (names id body) 8 16 ≡ id)
unfolding has_previous_handle_sentinel sentinel_at file_id_offset_in_body slice
dispatch_gate-closes_example =
    dispatch_gate-closes policy (some session) created failed id (header 0x0006) body frame
      (refl, refl) refl failed-Members trusted refl

dispatch_gate-runs_iff_example :
    (dispatch_gate policy created (some session) (header 0x0010) body frame
      ≡ runs created (copy 24 id body))
    ↔ (Trusted policy created (some session) (header 0x0010) frame
        × (resolve_related created (header 0x0010) body ≡ runs created (copy 24 id body)))
dispatch_gate-runs_iff_example =
    dispatch_gate-runs_iff policy created (some session) (header 0x0010) body frame created
      (copy 24 id body)
