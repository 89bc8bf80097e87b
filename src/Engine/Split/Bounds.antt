-- ===== src/Engine/Split/Bounds.antt =====
-- The chunks keep to the budget, and stay large enough for their members.
use sni_lua.Common.Sort.{sort_by, sort_by-perm, sort_by-IsSorted, IsSorted}
use sni_lua.Common.{
  ℕ, ◌+◌, ◌≤◌, ◌<◌, ◌≡◌, refl, List, [], ◌∷◌, ◌++◌, All, All-append, All-perm, All-map_of, ◌⊎◌, inl,
  inr, true, arith, Bool-cases, length, ltb, leb, leb→le, leb_total, leb_trans, max, add32, sub32,
  u32_mod,
}
use sni_lua.Engine.Split.{
  Member, by_offset, make_chunk, chunks, split_members, split_read, split_reads_to_budget,
}
use sni_lua.Watch.Coalesce.Bounds.{IsWithin}
use sni_lua.Watch.Coalesce.{CoalescedRead}
use sni_lua.Watch.{InRange}

-- Within the budget, or one member that alone is larger.
abbrev pub KeepsTo : ℕ → CoalescedRead → Type 0
KeepsTo budget r = (r.region.size ≤ max budget 1) ⊎ (length r.members ≡ 1)

chunks-KeepsTo :
    (budget : ℕ) (read : CoalescedRead) (start end : ℕ) (cms ms : List Member)
    → (sub32 end start ≤ budget) ⊎ (length cms ≡ 1)
    → All
        (λ r. (r.region.size ≤ budget) ⊎ (length r.members ≡ 1))
        (chunks budget read start end cms ms)
unfolding chunks make_chunk
chunks-KeepsTo budget read start end cms [] h = (h, tt)
chunks-KeepsTo budget read start end cms ((id, off, size) ∷ ms) h =
    let from = add32 read.region.address off in
    let until = add32 from size in
    elim (Bool-cases (ltb budget (sub32 (max end until) start))) [
      | inl e ↦
          rw (e, chunks)
            (h, chunks-KeepsTo budget read from until ((id, 0, size) ∷ []) ms (inr refl))
      | inr e ↦
          rw (e, chunks)
            (chunks-KeepsTo budget read start (max end until)
              (cms ++ (id, sub32 from start, size) ∷ []) ms (inl (ground arith)))
    ]

split_members-KeepsTo :
    (budget : ℕ) (read : CoalescedRead) (ms : List Member)
    → All (λ r. (r.region.size ≤ budget) ⊎ (length r.members ≡ 1)) (split_members budget read ms)
unfolding split_members
split_members-KeepsTo budget read [] = tt
split_members-KeepsTo budget read ((id, off, size) ∷ ms) =
    chunks-KeepsTo budget read _ _ ((id, 0, size) ∷ []) ms (inr refl)

split_read-KeepsTo :
    (budget : ℕ) (read : CoalescedRead)
    → All (λ r. (r.region.size ≤ budget) ⊎ (length r.members ≡ 1)) (split_read budget read)
unfolding split_read
split_read-KeepsTo budget read = elim (Bool-cases (leb read.region.size budget)) [
  | inl e ↦ rw e (inl (leb→le _ _ e), tt)
  | inr e ↦ rw e (split_members-KeepsTo budget read (sort_by by_offset read.members))
]

-- Every chunk is at most as large as the budget, a budget of 0 counting as 1, or has a single
-- member, which alone may be larger.
pub split_reads_to_budget-KeepsTo :
    (reads : List CoalescedRead) (budget : ℕ)
    → All (KeepsTo budget) (split_reads_to_budget reads budget)
unfolding split_reads_to_budget
split_reads_to_budget-KeepsTo [] budget = tt
split_reads_to_budget-KeepsTo (r ∷ rs) budget =
    All-append (KeepsTo budget) (split_read (max budget 1) r) _
      (split_read-KeepsTo (max budget 1) r) (split_reads_to_budget-KeepsTo rs budget)

-- a member of the current chunk lies inside it, and the chunk inside 32 bits
record Grows (start end : ℕ) (cms : List Member) : Type 0 where
  ordered : start ≤ end
  in_range : end < u32_mod
  inside : All (λ m. start + m.1 + m.2 ≤ end) cms

-- what is left of the read, in order, from the chunk's start on
abbrev Ahead : CoalescedRead → ℕ → Member → Type 0
Ahead read start m = (m.1 + m.2 ≤ read.region.size) × (start ≤ read.region.address + m.1)

make_chunk-IsWithin :
    (read : CoalescedRead) (start end : ℕ) (cms : List Member)
    → Grows start end cms
    → IsWithin (make_chunk read start end cms)
unfolding make_chunk
make_chunk-IsWithin read start end cms g = record {
  in_range = omega (arith, g.ordered, g.in_range);
  inside =
      All-map_of (λ (m : Member). start + m.1 + m.2 ≤ end) _
        (λ m h. omega (arith, g.ordered, g.in_range)) cms g.inside;
}

module _ (read : CoalescedRead) (id off size : ℕ) (hr : InRange read.region)
    (fits : off + size ≤ read.region.size) where
  -- the chunk that a member begins
  Grows-first :
      Grows
        (add32 read.region.address off)
        (add32 (add32 read.region.address off) size)
        ((id, 0, size) ∷ [])
  Grows-first = record {
    ordered = omega (arith, hr.fits);
    in_range = omega arith;
    inside = (omega (arith, hr.fits), tt);
  }

  -- the members after it lie at its start or later
  Ahead-next :
      (start : ℕ) (ms : List Member)
      → All (Ahead read start) ms
      → All (λ m. by_offset (id, off, size) m ≡ true) ms
      → All (Ahead read (add32 read.region.address off)) ms
  Ahead-next start [] h b = tt
  Ahead-next start (m ∷ ms) h b =
      ((h.0.0, omega (arith, hr.fits, leb→le off m.1 b.0)), Ahead-next start ms h.1 b.1)

  -- the chunk with one more member
  Grows-more :
      (start end : ℕ) (cms : List Member)
      → Grows start end cms
      → start ≤ read.region.address + off
      → Grows start
          (max end (add32 (add32 read.region.address off) size))
          (cms ++ (id, sub32 (add32 read.region.address off) start, size) ∷ [])
  Grows-more start end cms g b = record {
    ordered = omega (arith, g.ordered);
    in_range = omega (arith, g.in_range);
    inside =
        All-append (λ (m : Member). start + m.1 + m.2 ≤ _) cms _
          (All-map_of (λ (m : Member). start + m.1 + m.2 ≤ end) _ (λ m h. omega arith) cms g.inside)
          (omega (arith, hr.fits), tt);
  }

chunks-IsWithin :
    (budget : ℕ) (read : CoalescedRead) (start end : ℕ) (cms ms : List Member)
    → InRange read.region
    → Grows start end cms
    → All (Ahead read start) ms
    → IsSorted by_offset ms
    → All IsWithin (chunks budget read start end cms ms)
unfolding chunks
chunks-IsWithin budget read start end cms [] hr g h s =
    (make_chunk-IsWithin read start end cms g, tt)
chunks-IsWithin budget read start end cms ((id, off, size) ∷ ms) hr g h s =
    let from = add32 read.region.address off in
    let until = add32 from size in
    elim (Bool-cases (ltb budget (sub32 (max end until) start))) [
      | inl e ↦
          rw (e, chunks)
            (
              make_chunk-IsWithin read start end cms g,
              chunks-IsWithin budget read from until ((id, 0, size) ∷ []) ms hr
                  (Grows-first read id off size hr h.0.0)
                  (Ahead-next read id off size hr h.0.0 start ms h.1 s.0) s.1,
            )
      | inr e ↦
          rw (e, chunks)
            (chunks-IsWithin budget read start (max end until)
              (cms ++ (id, sub32 from start, size) ∷ []) ms hr
              (Grows-more read id off size hr h.0.0 start end cms g h.0.1) h.1 s.1)
    ]

by_offset-IsSorted : (ms : List Member) → IsSorted by_offset (sort_by by_offset ms)
by_offset-IsSorted =
    sort_by-IsSorted by_offset (λ a b. leb_total a.1 b.1) (λ a b c. leb_trans a.1 b.1 c.1)

split_members-IsWithin :
    (budget : ℕ) (read : CoalescedRead) (ms : List Member)
    → InRange read.region
    → All (λ m. m.1 + m.2 ≤ read.region.size) ms
    → IsSorted by_offset ms
    → All IsWithin (split_members budget read ms)
unfolding split_members
split_members-IsWithin budget read [] hr h s = tt
split_members-IsWithin budget read ((id, off, size) ∷ ms) hr h s =
    chunks-IsWithin budget read _ _ ((id, 0, size) ∷ []) ms hr (Grows-first read id off size hr h.0)
      (Ahead-next read id off size hr h.0 0 ms
        (All-map_of (λ (m : Member). m.1 + m.2 ≤ read.region.size) _ (λ m f. (f, omega arith)) ms
          h.1)
        s.0)
      s.1

split_read-IsWithin :
    (budget : ℕ) (read : CoalescedRead) → IsWithin read → All IsWithin (split_read budget read)
unfolding split_read
split_read-IsWithin budget read w = elim (Bool-cases (leb read.region.size budget)) [
  | inl e ↦ rw e (w, tt)
  | inr e ↦ rw e (
      split_members-IsWithin budget read (sort_by by_offset read.members) w.in_range
        (All-perm _ (sort_by-perm by_offset read.members) w.inside)
        (by_offset-IsSorted read.members))
]

-- Splitting reads that hold their members whole gives chunks that hold theirs whole, and that end
-- below 2 ^ 32, for every budget.
pub split_reads_to_budget-IsWithin :
    (reads : List CoalescedRead) (budget : ℕ)
    → All IsWithin reads
    → All IsWithin (split_reads_to_budget reads budget)
unfolding split_reads_to_budget
split_reads_to_budget-IsWithin [] budget h = tt
split_reads_to_budget-IsWithin (r ∷ rs) budget h =
    All-append IsWithin (split_read (max budget 1) r) _ (split_read-IsWithin (max budget 1) r h.0)
      (split_reads_to_budget-IsWithin rs budget h.1)
