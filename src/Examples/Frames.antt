-- ===== src/Examples/Frames.antt =====
-- A compounded frame, responses of two sessions, a copy request and its key, and a watch that is
-- cancelled while its handle closes.
use gosamba.Prelude.{
  ℕ, suc, ◌≡◌, ◌≢◌, ◌↔◌, ◌≤◌, ◌*◌, ◌^◌, refl, false, List, [], ◌∷◌, ◌++◌, length, replicate, none,
  some, arith,
}
use gosamba.Prelude.Assoc.{get?}
use gosamba.Connection.{serve_frame, frame_needs_serial_execution}
use gosamba.Connection.Serial.{Concurrent, frame_needs_serial_execution-Concurrent}
use gosamba.Compound.{PendingMsg, Signing, flush, members}
use gosamba.Compound.Linked.{AreLinked, members-AreLinked}
use gosamba.Compound.Grouped.{Sends, flush-Sends}
use gosamba.CopyChunk.{SrvCopyChunk, validate_copy_chunks}
use gosamba.CopyChunk.Valid.{Modest, total, InFile, validate_copy_chunks_iff}
use gosamba.CopyChunk.Keys.{ResumeKeyTable, new_resume_key_table, issue, resolve, release}
use gosamba.CopyChunk.Keys.Revoked as Revoked
use gosamba.Dispatch.Async.{
  AsyncTable, new_async_table, register_notify, cancel_notify, cancel_notifies_for_opens,
}
use gosamba.Dispatch.Async.Once as Once

-- A message of 64 bytes.
abbrev message : ℕ → ℕ → List ℕ
message command next =
    (0xFE ∷ 0x53 ∷ 0x4D ∷ 0x42 ∷ 64 ∷ 0 ∷ replicate 6 0)
    ++ (command ∷ 0 ∷ replicate 6 0)
    ++ (next ∷ replicate 43 0)

-- A CREATE and a CLOSE.
abbrev frame : List ℕ
frame = message 5 64 ++ message 6 0

frame_needs_serial_execution-Concurrent_example :
    (frame_needs_serial_execution (suc (length frame)) frame ≡ false)
    ↔ Concurrent (serve_frame (suc (length frame)) frame)
frame_needs_serial_execution-Concurrent_example = frame_needs_serial_execution-Concurrent frame

abbrev first_done : PendingMsg
first_done = record { msg = message 5 0; session = some 1; encrypt = false }

abbrev second_done : PendingMsg
second_done = record { msg = message 6 0; session = some 2; encrypt = false }

abbrev pending : List PendingMsg
pending = first_done ∷ first_done ∷ second_done ∷ []

-- Sessions that sign.
abbrev signing : Signing
signing = record {
  primitives = record {
    hmac = λ k m. replicate 32 1;
    encrypt = λ k b. b;
    seal = λ k n a. replicate 16 2;
  };
  algo = 0;
  key_of = λ s. replicate 16 s;
}

flush-Sends_example : Sends signing (flush signing pending) pending
flush-Sends_example = flush-Sends signing pending

members-AreLinked_example : AreLinked (members signing pending)
members-AreLinked_example =
    members-AreLinked signing pending
      ((omega arith, omega arith), ((omega arith, omega arith), ((omega arith, omega arith), tt)))

abbrev chunks : List SrvCopyChunk
chunks = record { source_offset = 0; target_offset = 4096; len = 4096 } ∷ []

validate_copy_chunks_iff_example :
    (validate_copy_chunks chunks 8192 ≡ none)
    ↔ ((Modest chunks × (total chunks ≤ 16 * 2 ^ 20)) × InFile 8192 chunks)
validate_copy_chunks_iff_example =
    validate_copy_chunks_iff chunks 8192 ((omega arith, omega arith, omega arith), tt)

abbrev key : List ℕ
key = replicate 24 3

abbrev issued : ResumeKeyTable
issued = (issue 5 11 (some key) new_resume_key_table).0

issued-Reach : Revoked.Reach new_resume_key_table issued
unfolding get?
issued-Reach = Revoked.next Revoked.here (Revoked.issues new_resume_key_table 5 11 key refl)

release_revokes_example : resolve key 5 (release 11 issued) ≢ some 11
release_revokes_example = Revoked.release_revokes 11 5 key issued-Reach

abbrev watching : AsyncTable
watching = register_notify 9 1 11 new_async_table

abbrev cancelled : AsyncTable
cancelled = (cancel_notify 9 0xC0000120 watching).0

abbrev cleaned : AsyncTable
cleaned = cancel_notifies_for_opens (11 ∷ []) cancelled

cleaned-Reach : Once.Reach new_async_table cleaned
unfolding get?
cleaned-Reach =
    Once.next
      (Once.next (Once.next Once.here (Once.registers new_async_table 9 1 11 refl))
        (Once.cancels watching 9 0xC0000120))
      (Once.cleans_up cancelled (11 ∷ []))

Reach-ClosedOnce_example : Once.ClosedOnce cleaned
Reach-ClosedOnce_example = Once.Reach-ClosedOnce cleaned-Reach
