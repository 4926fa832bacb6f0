-- ===== src/CopyChunk/Keys.antt =====
-- `resumeKeyTable` of internal/parent/copychunk.go: the keys that name the source of a copy. Each
-- method holds the mutex.
pub mod Revoked
use gosamba.Prelude.{ℕ, ◌==◌, Bool, if◌then◌else◌, List, [], ◌∷◌, length, Option, none, some}
use gosamba.Prelude.Assoc.{Map, get?, put, delete, nat_key, bytes_key}

-- The handle and the session, by their pointers.
pub record ResumeKeyEntry : Type 0 where
  pub handle : ℕ
  pub session : ℕ

pub record ResumeKeyTable : Type 0 where
  pub by_key : Map (List ℕ) ResumeKeyEntry
  pub by_open : Map ℕ (List ℕ)

abbrev pub new_resume_key_table : ResumeKeyTable
new_resume_key_table = record { by_key = []; by_open = [] }

-- Whether the key is the session's.
abbrev pub issued_to : ℕ → Option ResumeKeyEntry → Bool
issued_to session none = Bool.false
issued_to session (some e) = e.session == session

-- The entries of a handle dropped.
unfoldable pub revoke : ℕ → Option (List ℕ) → ResumeKeyTable → ResumeKeyTable
revoke handle none t = t
revoke handle (some key) t = record {
  by_key = delete key t.by_key;
  by_open = delete handle t.by_open;
}

-- `random` is what `rand.Read` gives, `none` where it fails.
abbrev pub mint : ℕ → ℕ → Option (List ℕ) → ResumeKeyTable → ResumeKeyTable × Option (List ℕ)
mint session handle none t = (t, none)
mint session handle (some key) t = (
  record {
    by_key = put key (record { handle = handle; session = session }) t.by_key;
    by_open = put handle key t.by_open;
  },
  some key,
)

unfoldable pub issue_at :
    ℕ → ℕ → Option (List ℕ) → Option (List ℕ) → ResumeKeyTable → ResumeKeyTable × Option (List ℕ)
issue_at session handle random none t = mint session handle random t
issue_at session handle random (some key) t =
    if issued_to session (get? key t.by_key)
    then (t, some key)
    else mint session handle random (revoke handle (some key) t)

unfoldable pub issue : ℕ → ℕ → Option (List ℕ) → ResumeKeyTable → ResumeKeyTable × Option (List ℕ)
issue session handle random t = issue_at session handle random (get? handle t.by_open) t

abbrev pub handle_for : ℕ → Option ResumeKeyEntry → Option ℕ
handle_for session none = none
handle_for session (some e) = if e.session == session then some e.handle else none

unfoldable pub resolve : List ℕ → ℕ → ResumeKeyTable → Option ℕ
resolve key session t = handle_for session (get? key t.by_key)

unfoldable pub release : ℕ → ResumeKeyTable → ResumeKeyTable
release handle t = revoke handle (get? handle t.by_open) t

abbrev pub clear : ResumeKeyTable
clear = record { by_key = []; by_open = [] }

unfoldable pub len : ResumeKeyTable → ℕ
len t = length t.by_key
