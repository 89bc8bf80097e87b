-- ===== src/Engine/Pending/Summary.antt =====
-- What the stats call deferred is what is pending.
use sni_lua.Common.IdSet
use sni_lua.Common.IdSet.{IdSet, contains}
use sni_lua.Common.Map
use sni_lua.Common.{
  ℕ, ◌≡◌, refl, ◌∙◌, Bool, true, false, not, ◌&&◌, ◌||◌, List, [], ◌∷◌, none, some, any, is_empty,
  length, saturating_add32, if◌then◌else◌, leb, ◌==◌, Bool-cases, Option-cases, inl, inr, arith,
}
use sni_lua.Engine.Pending.{
  Requests, ReadStates, requested, state_of, member_is_pending, read_is_pending, Backlog,
  count_member, count_members, count_reads, pending_summary,
}
use sni_lua.Engine.Split.{Member}
use sni_lua.Watch.Coalesce.{CoalescedRead}

insert-nonempty : (id : ℕ) (s : IdSet) → is_empty (IdSet.insert id s) ≡ false
unfolding IdSet.insert contains
insert-nonempty id [] = refl
insert-nonempty id (j ∷ s) = ground arith

contains-empty : (id : ℕ) (s : IdSet) → is_empty s ≡ true → contains id s ≡ false
unfolding contains
contains-empty id [] h = refl
contains-empty id (j ∷ s) h = ground (arith, h)

requested-some :
    (reqs : Requests) (id seq : ℕ) → Map.get id reqs ≡ some seq → requested reqs id ≡ seq
requested-some reqs id seq e = rw (requested, e) refl

requested-none : (reqs : Requests) (id : ℕ) → Map.get id reqs ≡ none → requested reqs id ≡ 0
requested-none reqs id e = rw (requested, e) refl

module _ (reqs : Requests) (st : ReadStates) (cycle : ℕ) where
  counted :
      (m : Member) (b : Backlog)
      → is_empty (count_member reqs st cycle m b).0.pending_ids
        ≡ (is_empty b.pending_ids && not (member_is_pending reqs st [] m))
  unfolding count_member contains
  counted m b = elim (Option-cases (Map.get m.0 reqs)) [
    | inl e ↦ rw (e, count_member) (let z = requested-none reqs m.0 e in ground (arith, z))
    | inr (seq, e) ↦
        elim (Bool-cases (leb seq (state_of st m.0).request_seq || contains m.0 b.pending_ids)) [
          | inl q ↦
              rw (e, q, count_member)
                (let z = requested-some reqs m.0 seq e in
                  ground (arith, z, q, contains-empty m.0 b.pending_ids))
          | inr q ↦
              rw (e, q, count_member)
                (let z = requested-some reqs m.0 seq e in
                  ground (arith, z, q, insert-nonempty m.0 b.pending_ids))
        ]
  ]

  counted_members :
      (ms : List Member) (read_pending : Bool) (b : Backlog)
      → is_empty (count_members reqs st cycle ms read_pending b).0.pending_ids
        ≡ (is_empty b.pending_ids && not (any (member_is_pending reqs st []) ms))
  unfolding count_members
  counted_members [] rp b = ground arith
  counted_members (m ∷ ms) rp b =
      let turn = count_member reqs st cycle m b in
      counted_members ms (rp || turn.1) turn.0 ∙ rw (counted m b) (ground arith)

  counted_reads :
      (rs : List CoalescedRead) (b : Backlog)
      → is_empty (count_reads rs reqs st cycle b).pending_ids
        ≡ (is_empty b.pending_ids && not (any (λ r. read_is_pending r reqs st []) rs))
  unfolding count_reads read_is_pending
  counted_reads [] b = ground arith
  counted_reads (r ∷ rs) b =
      let turn = count_members reqs st cycle r.members false b in
      let b' : Backlog =
        if turn.1
        then record turn.0 { bytes = saturating_add32 turn.0.bytes r.region.size }
        else turn.0 in
      let same : b'.pending_ids ≡ turn.0.pending_ids = ground arith in
      counted_reads rs b' ∙ rw (same, counted_members r.members false b) (ground arith)

  none_counted : (s : IdSet) → (length s == 0) ≡ is_empty s
  none_counted [] = refl
  none_counted (j ∷ s) = ground arith

  -- The stats count no watch as deferred exactly if no read of the cycle is pending by the markers.
  pub pending_summary-none :
      (rs : List CoalescedRead)
      → ((pending_summary rs reqs st cycle).watches == 0)
        ≡ not (any (λ r. read_is_pending r reqs st []) rs)
  unfolding pending_summary
  pending_summary-none rs = none_counted _ ∙ counted_reads rs _
