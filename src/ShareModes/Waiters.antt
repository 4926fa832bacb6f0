-- ===== src/ShareModes/Waiters.antt =====
-- A refused CREATE that waits, and the next release on its file.
use gosamba.Prelude.{
  ℕ, ◌≡◌, refl, ◌≢◌, ◌⊎◌, inl, inr, Bool, true, false, ◌==◌, ==_iff, arith, if◌then◌else◌, List, [],
  ◌∷◌, ◌++◌, Option, none, some, any, filter, Elem, Bool-cases,
}
use gosamba.Prelude.Assoc.{Map, get?, get?-put, get?-delete, or_nil, nat_key}
use gosamba.Locks.Range.{FileKey, file_key, file_key_eq, file_key_eq_iff}
use gosamba.ShareModes.{
  ShareModeEntry, ShareModeTable, ShareWaiter, Stat, acquire_locked, admit, is_some,
  acquire_or_wait, or_wait, register_waiter_locked, release, release_at, wake_locked, channels,
  transfer, transfer_at, unwait, waiters_at, store_waiters, drop_first, new_share_mode_entry,
  conflicts_with_any, entries_at, entry_live,
}

-- The waiter is still registered, or its channel has been closed.
abbrev pub IsServed : ShareWaiter → ShareModeTable → Type 0
IsServed w t = Elem w (waiters_at w.key t) ⊎ Elem w.channel t.closed

-- What other calls may do while `w` waits: anything but giving `w` itself up.
pub data Meanwhile (w : ShareWaiter) (s : ShareModeTable) : ShareModeTable → Type 0 where
  here : Meanwhile w s s
  acquires :
      {t : ShareModeTable} (stat : Stat) (key : FileKey) (o desired share : ℕ)
      → Meanwhile w s t
      → Meanwhile w s (acquire_or_wait stat t key o desired share).0
  releases : {t : ShareModeTable} (o : ℕ) → Meanwhile w s t → Meanwhile w s (release t o)
  transfers :
      {t : ShareModeTable} (from to : ℕ) → Meanwhile w s t → Meanwhile w s (transfer t from to)
  unwaits :
      {t : ShareModeTable} (x : ShareWaiter)
      → x.channel ≢ w.channel
      → Meanwhile w s t
      → Meanwhile w s (unwait t x)

Elem-channels :
    (w : ShareWaiter) (ws : List ShareWaiter) (cs : List ℕ)
    → Elem w ws
    → Elem w.channel (channels ws ++ cs)
Elem-channels w [] cs i = elim i [ ]
Elem-channels w (x ∷ ws) cs (inl e) = inl (ground arith)
Elem-channels w (x ∷ ws) cs (inr i) = inr (Elem-channels w ws cs i)

Elem-after : (c : ℕ) (cs ds : List ℕ) → Elem c ds → Elem c (cs ++ ds)
Elem-after c [] ds i = i
Elem-after c (x ∷ cs) ds i = inr (Elem-after c cs ds i)

Elem-before : (w : ShareWaiter) (ws xs : List ShareWaiter) → Elem w ws → Elem w (ws ++ xs)
Elem-before w [] xs i = elim i [ ]
Elem-before w (x ∷ ws) xs (inl e) = inl e
Elem-before w (x ∷ ws) xs (inr i) = inr (Elem-before w ws xs i)

wake-IsServed :
    (w : ShareWaiter) (t : ShareModeTable) (key : FileKey)
    → IsServed w t
    → IsServed w (wake_locked t key)
unfolding wake_locked waiters_at
wake-IsServed w t key (inr closed) =
    inr (Elem-after w.channel (channels (or_nil (get? key t.waiters))) t.closed closed)
wake-IsServed w t key (inl i) = elim (Bool-cases (file_key_eq key w.key)) [
  | inl e ↦
      let there : Elem w (or_nil (get? key t.waiters)) = rw ((file_key_eq_iff key w.key).0 e) i in
      inr (Elem-channels w (or_nil (get? key t.waiters)) t.closed there)
  | inr e ↦ inl (rw (get?-delete key w.key t.waiters, e) i)
]

release_at-IsServed :
    (w : ShareWaiter) (t : ShareModeTable) (o : ℕ) (k : Option FileKey)
    → IsServed w t
    → IsServed w (release_at t o k)
unfolding release_at waiters_at
release_at-IsServed w t o none s = s
release_at-IsServed w t o (some key) s = wake-IsServed w _ key s

transfer_at-IsServed :
    (w : ShareWaiter) (t : ShareModeTable) (from to : ℕ) (k : Option FileKey)
    → IsServed w t
    → IsServed w (transfer_at t from to k)
unfolding transfer_at waiters_at
transfer_at-IsServed w t from to none s = s
transfer_at-IsServed w t from to (some key) s = s

transfer-IsServed :
    (w : ShareWaiter) (t : ShareModeTable) (from to : ℕ)
    → IsServed w t
    → IsServed w (transfer t from to)
unfolding transfer
transfer-IsServed w t from to s = elim (Bool-cases (from == to)) [
  | inl e ↦ rw e s
  | inr e ↦ rw e (transfer_at-IsServed w t from to (get? from t.owners) s)
]

get?-store_waiters :
    (a b : FileKey) (ws : List ShareWaiter) (m : Map FileKey (List ShareWaiter))
    → or_nil (get? b (store_waiters a ws m)) ≡ (if file_key_eq a b then ws else or_nil (get? b m))
unfolding store_waiters
get?-store_waiters a b [] m = ground (arith, get?-delete a b m)
get?-store_waiters a b (w ∷ ws) m = ground (arith, get?-put a b (w ∷ ws) m)

Elem-drop_first :
    (w : ShareWaiter) (c : ℕ) (ws : List ShareWaiter)
    → c ≢ w.channel
    → Elem w ws
    → Elem w (drop_first c ws)
unfolding drop_first
Elem-drop_first w c [] ne i = i
Elem-drop_first w c (x ∷ ws) ne i = elim (Bool-cases (x.channel == c)) [
  | inl e ↦ elim i [ inl p ↦ absurd (ne (ground (arith, ==_iff x.channel c))) | inr j ↦ rw e j ]
  | inr e ↦ elim i [ inl p ↦ rw e (inl p) | inr j ↦ rw e (inr (Elem-drop_first w c ws ne j)) ]
]

unwait-IsServed :
    (w x : ShareWaiter) (t : ShareModeTable)
    → x.channel ≢ w.channel
    → IsServed w t
    → IsServed w (unwait t x)
unfolding unwait waiters_at
unwait-IsServed w x t ne s =
    elim (Bool-cases (any (λ y. y.channel == x.channel) (or_nil (get? x.key t.waiters)))) [
      | inr e ↦ rw e s
      | inl e ↦ elim s [
        | inr closed ↦ rw e (inr closed)
        | inl i ↦ elim (Bool-cases (file_key_eq x.key w.key)) [
          | inr f ↦ rw e (
              inl (
                rw
                  (
                    get?-store_waiters x.key w.key
                        (drop_first x.channel (or_nil (get? x.key t.waiters))) t.waiters,
                    f,
                  )
                  i))
          | inl f ↦
              let there : Elem w (or_nil (get? x.key t.waiters)) =
                rw ((file_key_eq_iff x.key w.key).0 f) i in
              rw e (
                inl (
                  rw
                    (
                      get?-store_waiters x.key w.key
                          (drop_first x.channel (or_nil (get? x.key t.waiters))) t.waiters,
                      f,
                    )
                    (Elem-drop_first w x.channel (or_nil (get? x.key t.waiters)) ne there)))
        ]
      ]
    ]

register-IsServed :
    (w : ShareWaiter) (t : ShareModeTable) (key : FileKey)
    → IsServed w t
    → IsServed w (register_waiter_locked t key).0
unfolding register_waiter_locked waiters_at
register-IsServed w t key (inr closed) = inr closed
register-IsServed w t key (inl i) = elim (Bool-cases (file_key_eq key w.key)) [
  | inr f ↦ inl (
      rw
        (
          get?-put key w.key
              (or_nil (get? key t.waiters) ++ record { key = key; channel = t.next_channel } ∷ [])
              t.waiters,
          f,
        )
        i)
  | inl f ↦
      let there : Elem w (or_nil (get? key t.waiters)) = rw ((file_key_eq_iff key w.key).0 f) i in
      inl (
        rw
          (
            get?-put key w.key
                (or_nil (get? key t.waiters) ++ record { key = key; channel = t.next_channel } ∷ [])
                t.waiters,
            f,
          )
          (Elem-before w (or_nil (get? key t.waiters)) _ there))
]

-- Admission leaves the waiters and the closed channels alone.
admit-IsServed :
    (w : ShareWaiter) (stat : Stat) (t : ShareModeTable) (key : FileKey) (x : ShareModeEntry)
    → IsServed w t
    → IsServed w (admit stat t key x).0
unfolding admit waiters_at
admit-IsServed w stat t key x s =
    elim (Bool-cases (conflicts_with_any x (filter (entry_live stat key) (entries_at key t)))) [
      | inl e ↦ rw e s
      | inr e ↦ rw e s
    ]

acquire_locked-IsServed :
    (w : ShareWaiter) (stat : Stat) (t : ShareModeTable) (key : FileKey) (o desired share : ℕ)
    → IsServed w t
    → IsServed w (acquire_locked stat t key o desired share).0
unfolding acquire_locked
acquire_locked-IsServed w stat t key o desired share s =
    elim (Bool-cases (is_some (get? o t.owners))) [
      | inl e ↦ rw e s
      | inr e ↦ rw e (admit-IsServed w stat t key (new_share_mode_entry o desired share) s)
    ]

or_wait-IsServed :
    (w : ShareWaiter) (key : FileKey) (r : ShareModeTable × Bool)
    → IsServed w r.0
    → IsServed w (or_wait key r).0
unfolding register_waiter_locked
or_wait-IsServed w key (t, true) s = s
or_wait-IsServed w key (t, false) s = unfold register_waiter_locked in register-IsServed w t key s

Meanwhile-IsServed :
    (w : ShareWaiter) {s t : ShareModeTable} → Meanwhile w s t → IsServed w s → IsServed w t
unfolding acquire_or_wait release
Meanwhile-IsServed w here s = s
Meanwhile-IsServed w (acquires {t} stat key o desired share m) s =
    or_wait-IsServed w key (acquire_locked stat t key o desired share)
      (acquire_locked-IsServed w stat t key o desired share (Meanwhile-IsServed w m s))
Meanwhile-IsServed w (releases {t} o m) s =
    release_at-IsServed w t o (get? o t.owners) (Meanwhile-IsServed w m s)
Meanwhile-IsServed w (transfers {t} from to m) s =
    transfer-IsServed w t from to (Meanwhile-IsServed w m s)
Meanwhile-IsServed w (unwaits {t} x ne m) s = unwait-IsServed w x t ne (Meanwhile-IsServed w m s)

Elem-last : (w : ShareWaiter) (ws : List ShareWaiter) → Elem w (ws ++ w ∷ [])
Elem-last w [] = inl refl
Elem-last w (x ∷ ws) = inr (Elem-last w ws)

registered-IsServed :
    (t : ShareModeTable) (key : FileKey)
    → IsServed (register_waiter_locked t key).1 (register_waiter_locked t key).0
unfolding register_waiter_locked waiters_at
registered-IsServed t key =
    let w : ShareWaiter = record { key = key; channel = t.next_channel } in
    inl (
      rw
        (
          get?-put key key (or_nil (get? key t.waiters) ++ w ∷ []) t.waiters,
          (file_key_eq_iff key key).1 refl,
        )
        (Elem-last w (or_nil (get? key t.waiters))))

closes :
    (w : ShareWaiter) (t : ShareModeTable) (o : ℕ)
    → get? o t.owners ≡ some w.key
    → IsServed w t
    → Elem w.channel (release t o).closed
unfolding release release_at wake_locked waiters_at
closes w t o e (inr closed) =
    rw e (Elem-after w.channel (channels (or_nil (get? w.key t.waiters))) t.closed closed)
closes w t o e (inl i) = rw e (Elem-channels w (or_nil (get? w.key t.waiters)) t.closed i)

registered_key : (t : ShareModeTable) (key : FileKey) → (register_waiter_locked t key).1.key ≡ key
unfolding register_waiter_locked
registered_key t key = refl

waits-IsServed :
    (key : FileKey) (r : ShareModeTable × Bool) (w : ShareWaiter)
    → (or_wait key r).1 ≡ some w
    → IsServed w (or_wait key r).0 × (w.key ≡ key)
waits-IsServed key (t, true) w e = absurd (grind (arith, e))
waits-IsServed key (t, false) w e =
    let p : (register_waiter_locked t key).1 ≡ w = grind (arith, e) in
    (rw (← p) (registered-IsServed t key), rw (← p) (registered_key t key))

-- A CREATE that acquireOrWait refuses gets a waiter, and whatever the other calls do meanwhile short
-- of giving up that waiter, the next release of a handle that holds a reservation on the same file
-- leaves the waiter's channel closed.
pub release_wakes_waiter :
    (stat : Stat) (t t' : ShareModeTable) (key : FileKey) (o desired share holder : ℕ)
    (w : ShareWaiter)
    → (acquire_or_wait stat t key o desired share).1 ≡ some w
    → Meanwhile w (acquire_or_wait stat t key o desired share).0 t'
    → get? holder t'.owners ≡ some key
    → Elem w.channel (release t' holder).closed
unfolding acquire_or_wait
release_wakes_waiter stat t t' key o desired share holder w e m h =
    let (s, k) = waits-IsServed key (acquire_locked stat t key o desired share) w e in
    closes w t' holder (rw k h) (Meanwhile-IsServed w m s)
