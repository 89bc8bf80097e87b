-- ===== src/Engine/Pending.antt =====
-- `ReadState`, `read_is_pending`, `mark_fulfilled`, `mark_done` and `pending_summary`.
pub mod Marks
pub mod Summary
use sni_lua.Common.IdSet
use sni_lua.Common.IdSet.{IdSet}
use sni_lua.Common.Map
use sni_lua.Common.Map.{Map}
use sni_lua.Common.{
  ℕ, ◌+◌, ◌-◌, Bool, true, false, not, ◌&&◌, ◌||◌, List, [], ◌∷◌, Option, none, some, any,
  if◌then◌else◌, ltb, leb, min, max, length, saturating_add32, saturating_add64, u32_max,
}
use sni_lua.Engine.Split.{Member}
use sni_lua.Watch.Coalesce.{CoalescedRead}

pub record ReadState : Type 0 where
  pub request_seq : ℕ
  pub refresh_cycle : ℕ

-- `ReadState::default()`
abbrev pub never_read : ReadState
never_read = record { request_seq = 0; refresh_cycle = 0 }

abbrev pub Requests : Type 0
Requests = Map ℕ

abbrev pub ReadStates : Type 0
ReadStates = Map ReadState

-- `copied().unwrap_or(0)`
abbrev pub requested : Requests → ℕ → ℕ
requested request_seq id = elim (Map.get id request_seq) [ none ↦ 0 | some seq ↦ seq ]

-- `unwrap_or_default()`
abbrev pub state_or_default : Option ReadState → ReadState
state_or_default none = never_read
state_or_default (some s) = s

-- `get(&id).copied().unwrap_or_default()`
abbrev pub state_of : ReadStates → ℕ → ReadState
state_of read_state id = state_or_default (Map.get id read_state)

abbrev pub member_is_pending : Requests → ReadStates → IdSet → Member → Bool
member_is_pending request_seq read_state done m =
    not (IdSet.contains m.0 done)
    && ltb (state_of read_state m.0).request_seq (requested request_seq m.0)

unfoldable pub read_is_pending : CoalescedRead → Requests → ReadStates → IdSet → Bool
read_is_pending read request_seq read_state done =
    any (member_is_pending request_seq read_state done) read.members

-- `if let Some(seq) = request_seq.get(&id).copied() { read_state.insert(id, ..) }`
unfoldable pub fulfil : Requests → ℕ → ℕ → ReadStates → ReadStates
fulfil request_seq cycle id read_state = elim (Map.get id request_seq) [
  | none ↦ read_state
  | some seq ↦ Map.insert id (record { request_seq = seq; refresh_cycle = cycle }) read_state
]

-- the inner `for` of `mark_fulfilled`
unfoldable pub fulfil_members : Requests → ℕ → List Member → ReadStates → ReadStates
unfolding fulfil
fulfil_members request_seq cycle [] read_state = read_state
fulfil_members request_seq cycle (m ∷ ms) read_state =
    fulfil_members request_seq cycle ms (fulfil request_seq cycle m.0 read_state)

unfoldable pub mark_fulfilled : List CoalescedRead → Requests → ℕ → ReadStates → ReadStates
unfolding fulfil_members
mark_fulfilled [] request_seq cycle read_state = read_state
mark_fulfilled (r ∷ rs) request_seq cycle read_state =
    mark_fulfilled rs request_seq cycle (fulfil_members request_seq cycle r.members read_state)

-- the inner `for` of `mark_done`
unfoldable pub done_members : List Member → IdSet → IdSet
done_members [] done = done
done_members (m ∷ ms) done = done_members ms (IdSet.insert m.0 done)

unfoldable pub mark_done : List CoalescedRead → IdSet → IdSet
unfolding done_members
mark_done [] done = done
mark_done (r ∷ rs) done = mark_done rs (done_members r.members done)

-- the locals of `pending_summary`
pub record Backlog : Type 0 where
  pub pending_ids : IdSet
  pub bytes : ℕ
  pub oldest : ℕ
  pub age_sum : ℕ

-- One round of its inner `for`: `true` if the member made its read pending.
unfoldable pub count_member : Requests → ReadStates → ℕ → Member → Backlog → Backlog × Bool
count_member request_seq read_state cycle m b = elim (Map.get m.0 request_seq) [
  | none ↦ (b, false)
  | some seq ↦
      let state = state_of read_state m.0 in
      let age = cycle - state.refresh_cycle in
      if leb seq state.request_seq || IdSet.contains m.0 b.pending_ids then (b, false) else (
        record b {
          pending_ids = IdSet.insert m.0 b.pending_ids;
          oldest = max b.oldest age;
          age_sum = saturating_add64 b.age_sum age;
        },
        true,
      )
]

unfoldable pub count_members :
    Requests → ReadStates → ℕ → List Member → Bool → Backlog → Backlog × Bool
unfolding count_member
count_members request_seq read_state cycle [] read_pending b = (b, read_pending)
count_members request_seq read_state cycle (m ∷ ms) read_pending b =
    let (b', counted) = count_member request_seq read_state cycle m b in
    count_members request_seq read_state cycle ms (read_pending || counted) b'

unfoldable pub count_reads : List CoalescedRead → Requests → ReadStates → ℕ → Backlog → Backlog
unfolding count_members
count_reads [] request_seq read_state cycle b = b
count_reads (r ∷ rs) request_seq read_state cycle b =
    let (b', read_pending) = count_members request_seq read_state cycle r.members false b in
    count_reads rs request_seq read_state cycle
      (if read_pending then record b' { bytes = saturating_add32 b'.bytes r.region.size } else b')

pub record PendingSummary : Type 0 where
  pub watches : ℕ
  pub bytes : ℕ
  pub oldest_cycles : ℕ
  -- `avg_cycles` is the quotient of these two as floats, and 0 where `watches` is
  pub age_sum : ℕ

unfoldable pub pending_summary : List CoalescedRead → Requests → ReadStates → ℕ → PendingSummary
unfolding count_reads
pending_summary reads request_seq read_state cycle =
    let b =
      count_reads reads request_seq read_state cycle
        (record { pending_ids = []; bytes = 0; oldest = 0; age_sum = 0 }) in
    record {
      watches = length b.pending_ids;
      bytes = b.bytes;
      oldest_cycles = min b.oldest u32_max;
      age_sum = b.age_sum;
    }
