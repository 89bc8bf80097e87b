-- ===== src/Engine/Apply/Fresh.antt =====
-- One batch, from the watches to the snapshot: merged, split, trimmed, read and applied.
use sni_lua.Client.{MemRegion}
use sni_lua.Common.{
  ℕ, ◌≡◌, refl, sym, ap, ap₂, subst, ◌∙◌, Bool, true, false, ◌||◌, List, [], ◌∷◌, map, Permᴰ, Memᴰ,
  All, All-append_left, All-perm, All-Memᴰ, any, any-append, any-perm, flat_map, inl, inr, arith,
  ◌==◌, ==_refl,
}
use sni_lua.Engine.Apply.Cycle.{Only, Serves, Serves-reads, applied_reads}
use sni_lua.Engine.Apply.Slices.{Memory, peek}
use sni_lua.Engine.Apply.{apply_reads}
use sni_lua.Engine.Pending.Marks.{has_member, is_read}
use sni_lua.Engine.Pending.{ReadStates}
use sni_lua.Engine.Select.Admission.{select_bulk-perm}
use sni_lua.Engine.Select.{select_bulk}
use sni_lua.Engine.Split.{Member, split_reads_to_budget}
use sni_lua.Engine.Split.Bounds.{split_reads_to_budget-IsWithin}
use sni_lua.Engine.Split.Members.{restored-split_reads_to_budget}
use sni_lua.Snapshot.Builder.{built, fresh}
use sni_lua.Snapshot.{SnapshotBuilder}
use sni_lua.Watch.Coalesce.Bounds.{coalesce-IsWithin}
use sni_lua.Watch.Coalesce.Groups.{restored-coalesce}
use sni_lua.Watch.Coalesce.Members.{member_region, restored, wanted}
use sni_lua.Watch.Coalesce.{CoalescedRead, coalesce}
use sni_lua.Watch.{WatchHandle, InRange}

-- No two watches have one id.
abbrev pub Distinct : List WatchHandle → Type 0
Distinct [] = Unit
Distinct (w ∷ ws) = All (λ v. (v.id == w.id) ≡ false) ws × Distinct ws

==_sym : (a b : ℕ) → (a == b) ≡ false → (b == a) ≡ false
==_sym a b h = ground arith

Only-others :
    (w : WatchHandle) (ws : List WatchHandle)
    → All (λ v. (v.id == w.id) ≡ false) ws
    → All (Only w.id w.region) (map wanted ws)
Only-others w [] h = tt
Only-others w (v ∷ ws) h = (inl h.0, Only-others w ws h.1)

Distinct-Only :
    (w : WatchHandle) (ws : List WatchHandle)
    → Distinct ws
    → Memᴰ w ws
    → All (Only w.id w.region) (map wanted ws)
Distinct-Only w [] d m = elim m [ ]
Distinct-Only w (v ∷ ws) d (Memᴰ.head e) =
    subst (λ u. All (Only u.id u.region) (map wanted (v ∷ ws))) (sym e)
      (inr refl, Only-others v ws d.0)
Distinct-Only w (v ∷ ws) d (Memᴰ.tail m) =
    (inl (==_sym w.id v.id (All-Memᴰ _ w ws d.0 m)), Distinct-Only w ws d.1 m)

-- The chunks of the merged watches serve each of the watches.
pub Serves-split :
    (w : WatchHandle) (ws : List WatchHandle) (gap budget : ℕ)
    → All (λ v. InRange v.region) ws
    → Distinct ws
    → Memᴰ w ws
    → All (Serves w.id w.region) (split_reads_to_budget (coalesce ws gap) budget)
Serves-split w ws gap budget h d m =
    Serves-reads w.id w.region (split_reads_to_budget (coalesce ws gap) budget)
      (split_reads_to_budget-IsWithin (coalesce ws gap) budget (coalesce-IsWithin ws gap h))
      (All-perm (Only w.id w.region)
        (Permᴰ.trans (restored-coalesce ws gap h)
          (restored-split_reads_to_budget (coalesce ws gap) budget))
        (Distinct-Only w ws d m))

-- What holds of the reads that are offered holds of the batch.
pub All-select_bulk :
    (P : CoalescedRead → Type 0) (reads : List CoalescedRead) (budget : ℕ) (states : ReadStates)
    (cycle : ℕ)
    → All P reads
    → All P (select_bulk reads budget states cycle).reads
All-select_bulk P reads budget states cycle h =
    let (rest, p, c) = select_bulk-perm reads budget states cycle in
    All-append_left P _ rest (All-perm P p h)

abbrev pub goes_by : ℕ → ℕ × MemRegion → Bool
goes_by id e = e.0 == id

pub is_read-restored :
    (id : ℕ) (reads : List CoalescedRead)
    → is_read id reads ≡ any (goes_by id) (flat_map restored reads)
unfolding is_read has_member
is_read-restored id [] = refl
is_read-restored id (read ∷ reads) =
    ap₂ ◌||◌ (members read.members) (is_read-restored id reads)
    ∙ sym (any-append (goes_by id) (restored read) (flat_map restored reads))
  where
    members :
        (ms : List Member)
        → has_member id ms ≡ any (goes_by id) (map (λ m. (m.0, member_region read m)) ms)
    members [] = refl
    members (m ∷ ms) = ap (λ b. m.0 == id || b) (members ms)

is_wanted :
    (w : WatchHandle) (ws : List WatchHandle)
    → Memᴰ w ws
    → any (goes_by w.id) (map wanted ws) ≡ true
is_wanted w [] m = elim m [ ]
is_wanted w (v ∷ ws) (Memᴰ.head e) = rw (ap (λ u. u.id == w.id) (sym e), ==_refl w.id)
is_wanted w (v ∷ ws) (Memᴰ.tail m) = rw (is_wanted w ws m) (ground arith)

-- Every watch is read by some chunk.
pub is_read-split :
    (w : WatchHandle) (ws : List WatchHandle) (gap budget : ℕ)
    → All (λ v. InRange v.region) ws
    → Memᴰ w ws
    → is_read w.id (split_reads_to_budget (coalesce ws gap) budget) ≡ true
is_read-split w ws gap budget h m =
    is_read-restored w.id (split_reads_to_budget (coalesce ws gap) budget)
    ∙ sym (
        any-perm (goes_by w.id) (
          Permᴰ.trans (restored-coalesce ws gap h)
            (restored-split_reads_to_budget (coalesce ws gap) budget)))
    ∙ is_wanted w ws m

-- The same of the merged watches before they are split.
pub Serves-coalesce :
    (w : WatchHandle) (ws : List WatchHandle) (gap : ℕ)
    → All (λ v. InRange v.region) ws
    → Distinct ws
    → Memᴰ w ws
    → All (Serves w.id w.region) (coalesce ws gap)
Serves-coalesce w ws gap h d m =
    Serves-reads w.id w.region (coalesce ws gap) (coalesce-IsWithin ws gap h)
      (All-perm (Only w.id w.region) (restored-coalesce ws gap h) (Distinct-Only w ws d m))

pub is_read-coalesce :
    (w : WatchHandle) (ws : List WatchHandle) (gap : ℕ)
    → All (λ v. InRange v.region) ws
    → Memᴰ w ws
    → is_read w.id (coalesce ws gap) ≡ true
is_read-coalesce w ws gap h m =
    is_read-restored w.id (coalesce ws gap)
    ∙ sym (any-perm (goes_by w.id) (restored-coalesce ws gap h))
    ∙ is_wanted w ws m

-- the reply to a batch of a console that holds this memory
abbrev pub reply_of : Memory → List CoalescedRead → List (List ℕ)
reply_of mem = map (λ read. peek mem read.region)

-- Merged, split, read whole and sliced back, every watch holds the memory at its own region: for
-- any watches with distinct ids that end below 2 ^ 32, any gap, budget and memory.
pub apply_reads-split :
    (mem : Memory) (ws : List WatchHandle) (gap budget : ℕ) (b : SnapshotBuilder)
    → All (λ v. InRange v.region) ws
    → Distinct ws
    → (w : WatchHandle) → Memᴰ w ws
    → let reads = split_reads_to_budget (coalesce ws gap) budget in
      built (apply_reads reads (reply_of mem reads) b) w.id ≡ fresh w.region (peek mem w.region)
apply_reads-split mem ws gap budget b h d w m =
    applied_reads w.id w.region mem _ b (Serves-split w ws gap budget h d m)
    ∙ rw (is_read-split w ws gap budget h m)
