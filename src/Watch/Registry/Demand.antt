-- ===== src/Watch/Registry/Demand.antt =====
-- Demand: what a read by the script, a pin and a tier hint do to a watch, and when it is polled.
use sni_lua.Common.Map
use sni_lua.Common.Map.{
  Map, get-update, get-update_ne, get-remove, get-insert, All-get, get_unique, get→Memᴰ,
}
use sni_lua.Common.{
  ℕ, ◌+◌, ◌≤◌, ◌<◌, ◌≡◌, ◌≢◌, ap, ◌∙◌, some, List, [], ◌∷◌, Memᴰ, All, All-map_of, All-map,
  Memᴰ-map, Memᴰ-retain, arith, length, inl, inr, ◌⊎◌, ◌==◌, ==_refl, Bool-cases, sym, true, false,
  retain,
}
use sni_lua.Watch.Registry.Invariant.{
  IsEntry, IsValid, HasRoom, Op, registers, touches, pins, unregisters, upgrades, clears, step, run,
  step-IsValid, step-HasRoom,
}
use sni_lua.Watch.Registry.{
  WatchEntry, WatchRegistry, register, touch, pin, upgrade_priority, unregister, all,
  active_with_requests, active, is_active,
}
use sni_lua.Watch.{rank}

module _ (reg : WatchRegistry) (id now : ℕ) (e : WatchEntry) (v : IsValid reg)
    (room : HasRoom 1 reg) (found : Map.get id reg.inner ≡ some e) where
  touched : WatchEntry
  touched = record e { last_touch = now; request_seq = (touch reg id now).next_request }

  get-touch : Map.get id (touch reg id now).inner ≡ some touched
  unfolding touch touched
  get-touch = rw (get-update, found) (ground (arith, ==_refl id))

  -- In a valid registry that has the watch, and whose counters have room for one call more below
  -- 2 ^ 64, a read makes its watch wanted: for every window that is not empty, the watch is polled at
  -- that instant, with a marker that is newer than each marker that the registry held.
  pub touch-polled :
      (window j : ℕ) (d : WatchEntry)
      → 0 < window
      → Map.get j reg.inner ≡ some d
      → Memᴰ
          (e.handle, (touch reg id now).next_request)
          (active_with_requests (touch reg id now) window now)
        × (d.request_seq < (touch reg id now).next_request)
  unfolding active_with_requests touched touch
  touch-polled window j d h g = (
    Memᴰ-map (λ (x : WatchEntry). (x.handle, x.request_seq)) touched _
        (Memᴰ-retain (is_active window now) touched _ (ground arith)
          (get→Memᴰ id (touch reg id now).inner touched get-touch)),
    omega (arith, room.seqs, (All-get _ j reg.inner d v.entries g).2),
  )

-- in a valid registry the entries of other ids are all that a stale entry leaves to be polled
polled_others :
    (id window now : ℕ) (e : WatchEntry)
    → is_active window now e ≡ false
    → (m : Map WatchEntry) → All (λ x. (x.0 ≢ id) ⊎ (x.1 ≡ e)) m
    → All (λ x. x.1.handle.id ≡ x.0) m
    → All (λ x. x.handle.id ≢ id) (retain (is_active window now) (Map.values m))
polled_others id window now e stale [] h k = tt
polled_others id window now e stale ((j, x) ∷ m) (inl n, h) k =
    elim (Bool-cases (is_active window now x)) [
      | inl a ↦ rw a ((λ q. n (sym k.0 ∙ q)), polled_others id window now e stale m h k.1)
      | inr a ↦ rw a (polled_others id window now e stale m h k.1)
    ]
polled_others id window now e stale ((j, x) ∷ m) (inr q, h) k =
    rw (ap (is_active window now) q ∙ stale) (polled_others id window now e stale m h k.1)

-- A watch that the script has not read for the window, and that is not pinned, is not polled,
-- while its handle stays among all; in a valid registry.
pub dormant-not_polled :
    (reg : WatchRegistry) (id now window : ℕ) (e : WatchEntry)
    → IsValid reg
    → Map.get id reg.inner ≡ some e
    → e.pinned ≡ false
    → e.last_touch + window ≤ now
    → All (λ h. h.id ≢ id) (active reg window now) × Memᴰ e.handle (all reg)
unfolding active active_with_requests all
dormant-not_polled reg id now window e v found hp hw = (
  All-map (λ h. h.id ≢ id) _ _
      (All-map (λ p. p.0.id ≢ id) _ _
        (polled_others id window now e (ground arith) reg.inner
          (get_unique 0 id reg.inner e v.ascending found)
          (All-map_of (IsEntry reg.next_id reg.next_request) _ (λ x h. h.1) reg.inner v.entries))),
  Memᴰ-map (λ (x : WatchEntry). x.handle) e _ (get→Memᴰ id reg.inner e found),
)

-- The calls that leave a watch registered.
abbrev pub Keeps : ℕ → ℕ × Op → Type 0
Keeps id (now, unregisters j) = id ≢ j
Keeps id (now, clears) = ⊥
Keeps id (now, registers region priority) = Unit
Keeps id (now, touches j) = Unit
Keeps id (now, pins j) = Unit
Keeps id (now, upgrades j priority) = Unit

-- what a pinned watch keeps through a call
abbrev pub StaysPinned : WatchEntry → WatchEntry → Type 0
StaysPinned e d =
    (d.pinned ≡ true)
    × (d.handle.id ≡ e.handle.id)
    × (d.handle.region ≡ e.handle.region)
    × (rank d.handle.priority ≤ rank e.handle.priority)

updated_pinned :
    (reg : WatchRegistry) (id j : ℕ) (e : WatchEntry) (f : WatchEntry → WatchEntry)
    → Map.get id reg.inner ≡ some e
    → ((x : WatchEntry) → x.pinned ≡ true → StaysPinned x (f x))
    → e.pinned ≡ true
    → (d : WatchEntry) × (Map.get id (Map.update j f reg.inner) ≡ some d) × StaysPinned e d
updated_pinned reg id j e f g keeps p = elim (Bool-cases (j == id)) [
  | inl q ↦ (f e, rw (get-update, g) (ground arith), keeps e p)
  | inr q ↦ (e, rw (get-update, g) (ground arith), ground arith)
]

step_pinned :
    (reg : WatchRegistry) (op : ℕ × Op) (id : ℕ) (e : WatchEntry)
    → IsValid reg
    → Map.get id reg.inner ≡ some e
    → e.pinned ≡ true
    → Keeps id op
    → (d : WatchEntry) × (Map.get id (step reg op).inner ≡ some d) × StaysPinned e d
unfolding step register touch pin unregister upgrade_priority
step_pinned reg (now, registers region priority) id e v g p k =
    let below : id < reg.next_id = (All-get _ id reg.inner e v.entries g).0 in
    (e, rw get-insert (ground arith), ground arith)
step_pinned reg (now, touches j) id e v g p k =
    updated_pinned reg id j e _ g (λ x h. ground arith) p
step_pinned reg (now, pins j) id e v g p k = updated_pinned reg id j e _ g (λ x h. ground arith) p
step_pinned reg (now, unregisters j) id e v g p k = (e, rw get-remove (ground arith), ground arith)
step_pinned reg (now, upgrades j priority) id e v g p k =
    updated_pinned reg id j e _ g (λ x h. ground arith) p
step_pinned reg (now, clears) id e v g p k = absurd k

-- A pinned watch is polled whatever the window and the instant, after any history that neither
-- unregisters it nor clears the registry, with its region and at least its urgency.
pub run_pinned :
    (reg : WatchRegistry) (ops : List (ℕ × Op)) (id : ℕ) (e : WatchEntry)
    → IsValid reg
    → HasRoom (length ops) reg
    → Map.get id reg.inner ≡ some e
    → e.pinned ≡ true
    → All (Keeps id) ops
    → (d : WatchEntry) × (Map.get id (run reg ops).inner ≡ some d) × StaysPinned e d
unfolding run
run_pinned reg [] id e v room g p k = (e, g, ground arith)
run_pinned reg (op ∷ ops) id e v room g p k =
    let (d, gd, kept) = step_pinned reg op id e v g p k.0 in
    let (c, gc, kept') =
      run_pinned (step reg op) ops id d (step-IsValid reg op (omega (arith, room.ids, room.seqs)) v)
        (step-HasRoom (length ops) reg op room) gd kept.0 k.1 in
    (c, gc, (kept'.0, kept'.1 ∙ kept.1, kept'.2 ∙ kept.2, omega arith))

-- A pinned watch is polled at every instant, for every window, after any history of calls that
-- neither unregisters it nor clears the registry; its region is the one that it was pinned with.
-- In a valid registry whose counters have room for the calls.
pub run_pinned-polled :
    (reg : WatchRegistry) (ops : List (ℕ × Op)) (id window now : ℕ) (e : WatchEntry)
    → IsValid reg
    → HasRoom (length ops) reg
    → Map.get id reg.inner ≡ some e
    → e.pinned ≡ true
    → All (Keeps id) ops
    → (d : WatchEntry) × (d.handle.region ≡ e.handle.region)
      × Memᴰ (d.handle, d.request_seq) (active_with_requests (run reg ops) window now)
unfolding active_with_requests
run_pinned-polled reg ops id window now e v room g p k =
    let (d, gd, kept) = run_pinned reg ops id e v room g p k in
    (
      d,
      kept.2,
      Memᴰ-map (λ (x : WatchEntry). (x.handle, x.request_seq)) d _
          (Memᴰ-retain (is_active window now) d _ (ground arith)
            (get→Memᴰ id (run reg ops).inner d gd)),
    )
