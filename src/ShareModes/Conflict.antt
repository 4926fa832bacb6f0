-- ===== src/ShareModes/Conflict.antt =====
-- `shareConflict` against the rule of MS-SMB2 3.3.5.9.
use gosamba.Prelude.{◌≡◌, ◌↔◌, ◌⊎◌, true, false, arith}
use gosamba.Access.{has_bits, share_access_read, share_access_write, share_access_delete}
use gosamba.ShareModes.{ShareModeEntry, share_conflict}

-- `user` reads, writes or deletes and `sharer` does not share that.
abbrev pub Denies : ShareModeEntry → ShareModeEntry → Type 0
Denies sharer user =
    ((user.reads ≡ true) × (has_bits sharer.sharing share_access_read ≡ false))
    ⊎ (((user.writes ≡ true) × (has_bits sharer.sharing share_access_write ≡ false))
        ⊎ ((user.deletes ≡ true) × (has_bits sharer.sharing share_access_delete ≡ false)))

-- Two opens conflict exactly if they agree on being attribute-only or not, and one of them uses an
-- access that the other does not share.
pub share_conflict_iff :
    (a b : ShareModeEntry)
    → (share_conflict a b ≡ true) ↔ ((a.attr_only ≡ b.attr_only) × (Denies a b ⊎ Denies b a))
unfolding share_conflict
share_conflict_iff a b = (λ h. ground arith, λ h. ground arith)

pub share_conflict_comm : (a b : ShareModeEntry) → share_conflict a b ≡ share_conflict b a
unfolding share_conflict
share_conflict_comm a b = ground arith
