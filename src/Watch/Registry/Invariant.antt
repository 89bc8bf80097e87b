-- ===== src/Watch/Registry/Invariant.antt =====
-- The registry under any history of calls: its invariant, and freshness of ids.
use sni_lua.Client.{MemRegion}
use sni_lua.Common.Map
use sni_lua.Common.Map.{Map, Ascending, All-update, All-remove, All-keys_insert}
use sni_lua.Common.{
  ℕ, suc, ◌+◌, ◌≤◌, ◌<◌, ◌≡◌, refl, none, some, List, [], ◌∷◌, All, All-map_of, arith, length,
  u64_mod, add64, if◌then◌else◌, ◌==◌, ==_refl, eq_of_==, false, ◌∙◌,
}
use sni_lua.Watch.Registry.{
  WatchEntry, WatchRegistry, new, register, touch, pin, upgrade_priority, unregister, clear,
}
use sni_lua.Watch.{WatchPriority}

-- An entry stands under its handle's id, and its id and marker have been drawn.
abbrev pub IsEntry : ℕ → ℕ → ℕ × WatchEntry → Type 0
IsEntry ids seqs e = (e.0 < ids) × (e.1.handle.id ≡ e.0) × (e.1.request_seq ≤ seqs)

pub record IsValid (reg : WatchRegistry) : Type 0 where
  pub ascending : Ascending 0 reg.inner
  pub entries : All (IsEntry reg.next_id reg.next_request) reg.inner

-- Neither counter has come near its end.
pub record HasRoom (n : ℕ) (reg : WatchRegistry) : Type 0 where
  pub ids : reg.next_id + n < u64_mod
  pub seqs : reg.next_request + n < u64_mod

pub data Op : Type 0 where
  registers : MemRegion → WatchPriority → Op
  touches pins unregisters : ℕ → Op
  upgrades : ℕ → WatchPriority → Op
  clears : Op

-- One call, at the instant `now`.
unfoldable pub step : WatchRegistry → ℕ × Op → WatchRegistry
step reg (now, registers region priority) = (register reg region priority now).0
step reg (now, touches id) = touch reg id now
step reg (now, pins id) = pin reg id now
step reg (now, unregisters id) = unregister reg id
step reg (now, upgrades id priority) = upgrade_priority reg id priority now
step reg (now, clears) = clear reg

unfoldable pub run : WatchRegistry → List (ℕ × Op) → WatchRegistry
unfolding step
run reg [] = reg
run reg (op ∷ ops) = run (step reg op) ops

IsEntry-mono : (i j s t : ℕ) → i ≤ j → s ≤ t → (e : ℕ × WatchEntry) → IsEntry i s e → IsEntry j t e
IsEntry-mono i j s t h k e v = (omega (arith, v.0), v.1, omega (arith, v.2))

update-entries :
    (reg : WatchRegistry) (id : ℕ) (f : WatchEntry → WatchEntry)
    → ((e : WatchEntry) → (f e).handle.id ≡ e.handle.id)
    → ((e : WatchEntry) → (f e).request_seq ≡ add64 reg.next_request 1)
    → HasRoom 1 reg
    → IsValid reg
    → IsValid
        (record reg { next_request = add64 reg.next_request 1; inner = Map.update id f reg.inner })
update-entries reg id f same_id seq room v = record {
  ascending = Map.update-Ascending 0 id f reg.inner v.ascending;
  entries =
      All-update (IsEntry reg.next_id reg.next_request)
        (IsEntry reg.next_id (add64 reg.next_request 1)) id f
        (λ e h. (h.0, same_id e ∙ h.1, omega (arith, seq e)))
        (IsEntry-mono reg.next_id reg.next_id reg.next_request (add64 reg.next_request 1)
          (omega arith) (omega (arith, room.seqs)))
        reg.inner v.entries;
}

register-IsValid :
    (reg : WatchRegistry) (region : MemRegion) (priority : WatchPriority) (now : ℕ)
    → HasRoom 1 reg
    → IsValid reg
    → IsValid (register reg region priority now).0
unfolding register
register-IsValid reg region priority now room v = record {
  ascending = Map.insert-Ascending 0 reg.next_id _ reg.inner (omega arith) v.ascending;
  entries =
      All-keys_insert (IsEntry (add64 reg.next_id 1) (add64 reg.next_request 1)) reg.next_id _
        reg.inner (omega (arith, room.ids), refl, omega arith)
        (All-map_of _ _
          (IsEntry-mono reg.next_id (add64 reg.next_id 1) reg.next_request
            (add64 reg.next_request 1) (omega (arith, room.ids)) (omega (arith, room.seqs)))
          reg.inner v.entries);
}

pub step-IsValid :
    (reg : WatchRegistry) (op : ℕ × Op) → HasRoom 1 reg → IsValid reg → IsValid (step reg op)
unfolding step touch pin unregister upgrade_priority clear
step-IsValid reg (now, registers region priority) room v =
    register-IsValid reg region priority now room v
step-IsValid reg (now, touches id) room v = update-entries reg id _ (λ e. refl) (λ e. refl) room v
step-IsValid reg (now, pins id) room v = update-entries reg id _ (λ e. refl) (λ e. refl) room v
step-IsValid reg (now, unregisters id) room v = record {
  ascending = Map.remove-Ascending 0 id reg.inner v.ascending;
  entries = All-remove _ id reg.inner v.entries;
}
step-IsValid reg (now, upgrades id priority) room v =
    update-entries reg id _ (λ e. ground arith) (λ e. refl) room v
step-IsValid reg (now, clears) room v = record { ascending = tt; entries = tt }

pub step-HasRoom :
    (n : ℕ) (reg : WatchRegistry) (op : ℕ × Op) → HasRoom (suc n) reg → HasRoom n (step reg op)
unfolding step register touch pin unregister upgrade_priority clear
step-HasRoom n reg (now, registers region priority) room = omega arith
step-HasRoom n reg (now, touches id) room = omega arith
step-HasRoom n reg (now, pins id) room = omega arith
step-HasRoom n reg (now, unregisters id) room = omega arith
step-HasRoom n reg (now, upgrades id priority) room = omega arith
step-HasRoom n reg (now, clears) room = omega arith

pub run-IsValid_of :
    (reg : WatchRegistry) (ops : List (ℕ × Op))
    → HasRoom (length ops) reg
    → IsValid reg
    → IsValid (run reg ops)
unfolding run
run-IsValid_of reg [] room v = v
run-IsValid_of reg (op ∷ ops) room v =
    run-IsValid_of (step reg op) ops (step-HasRoom (length ops) reg op room)
      (step-IsValid reg op (omega (arith, room.ids, room.seqs)) v)

-- After any history of fewer than 2 ^ 64 calls on a new registry, the entries stand in order of
-- their ids, each under its handle's id, every id is one that was handed out, and no marker lies
-- beyond the registry's counter.
pub run-IsValid : (ops : List (ℕ × Op)) → length ops < u64_mod → IsValid (run new ops)
unfolding new
run-IsValid ops h = run-IsValid_of new ops (omega arith) (record { ascending = tt; entries = tt })

-- A registration takes an id under which nothing stood, stores the handle that it returns, not
-- pinned and requested, and leaves every other watch as it was; in a valid registry.
pub register-fresh :
    (reg : WatchRegistry) (region : MemRegion) (priority : WatchPriority) (now : ℕ)
    → IsValid reg
    → let h = (register reg region priority now).1 in
      let reg' = (register reg region priority now).0 in
      (Map.get h.id reg.inner ≡ none)
      × (Map.get h.id reg'.inner
          ≡ some (record {
            handle = record { id = h.id; region = region; priority = priority };
            last_touch = now;
            request_seq = reg'.next_request;
            pinned = false;
          }))
      × ((j : ℕ) → (if h.id == j then none else Map.get j reg'.inner) ≡ Map.get j reg.inner)
unfolding register
register-fresh reg region priority now v = (
  absent,
  simp (Map.get-insert, ==_refl),
  λ j.
      ground
        (arith, Map.get-insert reg.next_id j new_entry reg.inner, absent, eq_of_== reg.next_id j),
)
  where
    absent : Map.get reg.next_id reg.inner ≡ none
    absent =
        Map.get-none_of_All reg.next_id reg.inner
          (All-map_of _ _ (λ e h. λ q. omega (arith, h.0)) reg.inner v.entries)

    new_entry : WatchEntry
    new_entry = record {
      handle = record { id = reg.next_id; region = region; priority = priority };
      last_touch = now;
      request_seq = add64 reg.next_request 1;
      pinned = false;
    }
