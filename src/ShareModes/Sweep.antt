-- ===== src/ShareModes/Sweep.antt =====
-- What the maps of the table read after `store` and after the dead entries are swept.
use gosamba.Prelude.{
  ℕ, ◌≡◌, refl, Bool, true, false, not, ◌&&◌, ◌==◌, arith, if◌then◌else◌, List, [], ◌∷◌, none, any,
  filter, All, Apart, inl, inr, Elem, All-Elem,
}
use gosamba.Prelude.Assoc.{Map, get?, delete, get?-put, get?-delete, or_nil, nat_key}
use gosamba.Locks.Range.{FileKey, file_key, file_key_eq}
use gosamba.ShareModes.{ShareModeEntry, store, sweep_owners}

pub get?-store :
    (key j : FileKey) (es : List ShareModeEntry) (m : Map FileKey (List ShareModeEntry))
    → or_nil (get? j (store key es m)) ≡ (if file_key_eq key j then es else or_nil (get? j m))
unfolding store
get?-store key j [] m = ground (arith, get?-delete key j m)
get?-store key j (e ∷ es) m = ground (arith, get?-put key j (e ∷ es) m)

-- A dead entry of the handle.
abbrev pub dead_of : (ShareModeEntry → Bool) → ℕ → ShareModeEntry → Bool
dead_of live o e = e.owner == o && not (live e)

pub get?-sweep_owners :
    (live : ShareModeEntry → Bool) (es : List ShareModeEntry) (owners : Map ℕ FileKey) (o : ℕ)
    → get? o (sweep_owners live es owners)
      ≡ (if any (dead_of live o) es then none else get? o owners)
unfolding sweep_owners
get?-sweep_owners live [] owners o = refl
get?-sweep_owners live (e ∷ es) owners o = ground (
  arith,
  get?-sweep_owners live es (if live e then owners else delete e.owner owners) o,
  get?-delete e.owner o owners,
)

abbrev pub same_owner : ShareModeEntry → ShareModeEntry → Bool
same_owner a b = a.owner == b.owner

abbrev pub of_owner : ℕ → ShareModeEntry → Bool
of_owner o e = e.owner == o

-- A handle with one entry that is live has no dead entry.
no_dead_twin :
    (live : ShareModeEntry → Bool) (e : ShareModeEntry) (es : List ShareModeEntry)
    → All (λ x. same_owner e x ≡ false) es
    → any (dead_of live e.owner) es ≡ false
no_dead_twin live e [] a = refl
no_dead_twin live e (x ∷ es) a = ground (arith, no_dead_twin live e es a.1)

absent_of_apart :
    (o : ℕ) (e : ShareModeEntry) (es : List ShareModeEntry)
    → e.owner ≡ o
    → All (λ x. same_owner e x ≡ false) es
    → any (of_owner o) es ≡ false
absent_of_apart o e [] h a = refl
absent_of_apart o e (x ∷ es) h a = ground (arith, absent_of_apart o e es h a.1)

-- The handle of a live entry has no dead one, where each handle has one entry.
pub live-no_dead :
    (live : ShareModeEntry → Bool) (e : ShareModeEntry) (es : List ShareModeEntry)
    → Apart same_owner es
    → Elem e es
    → live e ≡ true
    → any (dead_of live e.owner) es ≡ false
live-no_dead live e [] a i h = refl
live-no_dead live e (x ∷ es) a (inl same) h = ground (arith, no_dead_twin live x es a.0)
live-no_dead live e (x ∷ es) a (inr i) h =
    ground
      (arith, live-no_dead live e es a.1 i h, All-Elem (λ y. same_owner x y ≡ false) e es a.0 i)

-- A handle has a live entry exactly if it has an entry and no dead one.
pub any-filter_live :
    (live : ShareModeEntry → Bool) (o : ℕ) (es : List ShareModeEntry)
    → Apart same_owner es
    → any (dead_of live o) es ≡ false
    → any (of_owner o) es ≡ true
    → any (of_owner o) (filter live es) ≡ true
any-filter_live live o [] a d h = h
any-filter_live live o (e ∷ es) a d h = ground (arith, any-filter_live live o es a.1)
