-- ===== src/Engine/Pending/Marks.antt =====
-- What a successful batch leaves pending.
use sni_lua.Common.IdSet
use sni_lua.Common.IdSet.{IdSet, contains}
use sni_lua.Common.Map
use sni_lua.Common.Map.{Map, get-insert}
use sni_lua.Common.{
  ℕ, ◌≡◌, refl, ap, ap₂, subst, ◌∙◌, Bool, false, not, ◌&&◌, ◌||◌, List, [], ◌∷◌, Option, none,
  some, any, any-ext, if◌then◌else◌, ltb, ◌==◌, eq_of_==, arith, Bool-cases, Option-cases, inl, inr,
}
use sni_lua.Engine.Pending.{
  ReadState, state_or_default, Requests, ReadStates, requested, member_is_pending, read_is_pending,
  fulfil, fulfil_members, mark_fulfilled, done_members, mark_done,
}
use sni_lua.Engine.Split.{Member}
use sni_lua.Watch.Coalesce.{CoalescedRead}

-- the watch is among the members
unfoldable pub has_member : ℕ → List Member → Bool
has_member id [] = false
has_member id (m ∷ ms) = m.0 == id || has_member id ms

unfoldable pub is_read : ℕ → List CoalescedRead → Bool
unfolding has_member
is_read id [] = false
is_read id (r ∷ rs) = has_member id r.members || is_read id rs

contains-done_members :
    (id : ℕ) (ms : List Member) (done : IdSet)
    → contains id (done_members ms done) ≡ (has_member id ms || contains id done)
unfolding done_members has_member
contains-done_members id [] done = refl
contains-done_members id (m ∷ ms) done =
    contains-done_members id ms (IdSet.insert m.0 done)
    ∙ ground (arith, IdSet.contains-insert m.0 id done)

-- Exactly the watches of the batch are added to those that were serviced in this cycle.
pub contains-mark_done :
    (id : ℕ) (rs : List CoalescedRead) (done : IdSet)
    → contains id (mark_done rs done) ≡ (is_read id rs || contains id done)
unfolding mark_done is_read
contains-mark_done id [] done = refl
contains-mark_done id (r ∷ rs) done =
    contains-mark_done id rs (done_members r.members done)
    ∙ ground (arith, contains-done_members id r.members done)

-- the state that a batch gives a watch that was requested
abbrev pub fulfilled : Requests → ℕ → ℕ → Option ReadState → Option ReadState
fulfilled request_seq cycle id old = elim (Map.get id request_seq) [
  | none ↦ old
  | some seq ↦ some (record { request_seq = seq; refresh_cycle = cycle })
]

get-fulfil :
    (request_seq : Requests) (cycle k id : ℕ) (st : ReadStates)
    → Map.get id (fulfil request_seq cycle k st)
      ≡ (if k == id then fulfilled request_seq cycle id (Map.get id st) else Map.get id st)
unfolding fulfil
get-fulfil request_seq cycle k id st = elim (Bool-cases (k == id)) [
  | inl q ↦
      let i : k ≡ id = eq_of_== k id q in
      elim (Option-cases (Map.get k request_seq)) [
        | inl e ↦
            rw (e, q, fulfil)
              (let e' : Map.get id request_seq ≡ none =
                  subst (λ x. Map.get x request_seq ≡ none) i e in
                rw (e', fulfilled))
        | inr (seq, e) ↦
            rw (e, fulfil, get-insert, q)
              (let e' : Map.get id request_seq ≡ some seq =
                  subst (λ x. Map.get x request_seq ≡ some seq) i e in
                rw (e', fulfilled))
      ]
  | inr q ↦ elim (Option-cases (Map.get k request_seq)) [
    | inl e ↦ rw (e, q, fulfil)
    | inr (seq, e) ↦ rw (e, fulfil, get-insert, q)
  ]
]

fulfilled_twice :
    (request_seq : Requests) (cycle id : ℕ) (o : Option ReadState)
    → fulfilled request_seq cycle id (fulfilled request_seq cycle id o)
      ≡ fulfilled request_seq cycle id o
fulfilled_twice request_seq cycle id o = ground arith

get-fulfil_members :
    (request_seq : Requests) (cycle id : ℕ) (ms : List Member) (st : ReadStates)
    → Map.get id (fulfil_members request_seq cycle ms st)
      ≡ (if has_member id ms then fulfilled request_seq cycle id (Map.get id st) else Map.get id st)
unfolding fulfil_members has_member
get-fulfil_members request_seq cycle id [] st = refl
get-fulfil_members request_seq cycle id (m ∷ ms) st =
    get-fulfil_members request_seq cycle id ms (fulfil request_seq cycle m.0 st)
    ∙ rw (get-fulfil request_seq cycle m.0 id st) (elim (Bool-cases (m.0 == id)) [
      | inl e ↦
          rw (e, fulfilled_twice)
            (elim (Bool-cases (has_member id ms)) [ inl h ↦ rw h | inr h ↦ rw h ])
      | inr e ↦ rw e
    ])

-- A batch gives each of its watches that was requested the marker seen at the start of the cycle
-- and the cycle's number, and changes no other watch's state.
pub get-mark_fulfilled :
    (rs : List CoalescedRead) (request_seq : Requests) (cycle id : ℕ) (st : ReadStates)
    → Map.get id (mark_fulfilled rs request_seq cycle st)
      ≡ (if is_read id rs then fulfilled request_seq cycle id (Map.get id st) else Map.get id st)
unfolding mark_fulfilled is_read
get-mark_fulfilled [] request_seq cycle id st = refl
get-mark_fulfilled (r ∷ rs) request_seq cycle id st =
    get-mark_fulfilled rs request_seq cycle id (fulfil_members request_seq cycle r.members st)
    ∙ rw (get-fulfil_members request_seq cycle id r.members st)
        (elim (Bool-cases (has_member id r.members)) [
          | inl e ↦
              rw (e, fulfilled_twice)
                (elim (Bool-cases (is_read id rs)) [ inl h ↦ rw h | inr h ↦ rw h ])
          | inr e ↦ rw e
        ])

-- `member_is_pending` on what it reads of the two maps
abbrev pending_of : ℕ → Bool → Option ReadState → Bool
pending_of seq done o = not done && ltb (state_or_default o).request_seq seq

-- what a batch leaves pending of a member
abbrev pub pending_beside : List CoalescedRead → Requests → ReadStates → IdSet → Member → Bool
pending_beside rs request_seq st done m =
    not (is_read m.0 rs) && member_is_pending request_seq st done m

member_after_batch :
    (rs : List CoalescedRead) (request_seq : Requests) (cycle : ℕ) (st : ReadStates) (done : IdSet)
    (m : Member)
    → member_is_pending request_seq (mark_fulfilled rs request_seq cycle st) done m
      ≡ pending_beside rs request_seq st done m
member_after_batch rs request_seq cycle st done m =
    ap (pending_of (requested request_seq m.0) (contains m.0 done))
      (get-mark_fulfilled rs request_seq cycle m.0 st)
    ∙ elim (Bool-cases (is_read m.0 rs)) [
      | inl h ↦ rw h (elim (Option-cases (Map.get m.0 request_seq)) [
        | inl e ↦ rw (e, fulfilled, requested) (ground arith)
        | inr (seq, e) ↦ rw (e, fulfilled, requested) (ground arith)
      ])
      | inr h ↦ rw h
    ]

member_after_marks :
    (rs : List CoalescedRead) (request_seq : Requests) (cycle : ℕ) (st : ReadStates) (done : IdSet)
    (m : Member)
    → member_is_pending request_seq (mark_fulfilled rs request_seq cycle st) (mark_done rs done) m
      ≡ pending_beside rs request_seq st done m
member_after_marks rs request_seq cycle st done m =
    ap₂ (pending_of (requested request_seq m.0)) (contains-mark_done m.0 rs done)
      (get-mark_fulfilled rs request_seq cycle m.0 st)
    ∙ elim (Bool-cases (is_read m.0 rs)) [ inl h ↦ rw h | inr h ↦ rw h ]

-- After a batch has been marked, a read is pending exactly if it was so by a watch that is not of
-- the batch, both for the rest of the cycle and, by the markers alone, for any other set of watches
-- that are done: nothing just read is asked for again, and nothing else is forgotten.
pub read_is_pending-marked :
    (rs : List CoalescedRead) (request_seq : Requests) (cycle : ℕ) (st : ReadStates) (done : IdSet)
    (read : CoalescedRead)
    → (read_is_pending read request_seq (mark_fulfilled rs request_seq cycle st) (mark_done rs done)
        ≡ any (pending_beside rs request_seq st done) read.members)
      × ((other : IdSet)
          → read_is_pending read request_seq (mark_fulfilled rs request_seq cycle st) other
            ≡ any (pending_beside rs request_seq st other) read.members)
unfolding read_is_pending
read_is_pending-marked rs request_seq cycle st done read = (
  any-ext (member_after_marks rs request_seq cycle st done) read.members,
  λ other. any-ext (member_after_batch rs request_seq cycle st other) read.members,
)
