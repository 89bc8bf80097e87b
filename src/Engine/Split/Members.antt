-- ===== src/Engine/Split/Members.antt =====
-- Splitting keeps the members.
use mathlib.Core.List.Permᴰ
use mathlib.Core.List.{append_assoc, append-nil, map-append}
use sni_lua.Client.{MemRegion}
use sni_lua.Common.Sort.{sort_by-perm}
use sni_lua.Common.{
  ℕ, ◌<◌, ◌≡◌, refl, sym, ap, ap₂, ◌∙◌, List, [], ◌∷◌, ◌++◌, map, Permᴰ, flat_map, flat_map-append,
  inl, inr, arith, Bool-cases, ltb, leb, max, add32, sub32, u32_mod, add32-sub32,
}
use sni_lua.Engine.Split.{
  Member, by_offset, chunks, split_members, split_read, split_reads_to_budget,
}
use sni_lua.Watch.Coalesce.Members.{member_region, restored}
use sni_lua.Watch.Coalesce.{CoalescedRead}

abbrev own : CoalescedRead → Member → ℕ × MemRegion
own read m = (m.0, member_region read m)

-- where a chunk that begins at `start` places a member
abbrev placed : CoalescedRead → ℕ → Member → ℕ × MemRegion
placed read start m = (
  m.0,
  record {
    address = add32 start m.1;
    size = m.2;
    space = read.region.space;
    mapping = read.region.mapping;
  },
)

placed-own :
    (read : CoalescedRead) (start id off size : ℕ)
    → start < u32_mod
    → placed read start (id, sub32 (add32 read.region.address off) start, size)
      ≡ own read (id, off, size)
placed-own read start id off size hs =
    ground (arith, add32-sub32 start (add32 read.region.address off))

placed_first :
    (read : CoalescedRead) (id off size : ℕ)
    → placed read (add32 read.region.address off) (id, 0, size) ≡ own read (id, off, size)
placed_first read id off size =
    let e : add32 (add32 read.region.address off) 0 ≡ add32 read.region.address off = omega arith in
    ground (arith, e)

-- the members of the current chunk, in it, are the members seen so far, in the read
abbrev IsChunk : CoalescedRead → ℕ → List Member → List Member → Type 0
IsChunk read start cms seen = map (placed read start) cms ≡ map (own read) seen

restored-chunks :
    (budget : ℕ) (read : CoalescedRead) (start end : ℕ) (cms seen ms : List Member)
    → start < u32_mod
    → IsChunk read start cms seen
    → flat_map restored (chunks budget read start end cms ms) ≡ map (own read) (seen ++ ms)
unfolding chunks
restored-chunks budget read start end cms seen [] hs h = append-nil _ ∙ h ∙ rw append-nil
restored-chunks budget read start end cms seen ((id, off, size) ∷ ms) hs h =
    let from = add32 read.region.address off in
    let until = add32 from size in
    elim (Bool-cases (ltb budget (sub32 (max end until) start))) [
      | inl e ↦
          rw (e, chunks)
            (ap₂ ◌++◌ h (
                restored-chunks budget read from until ((id, 0, size) ∷ []) ((id, off, size) ∷ [])
                  ms (omega arith) (ap (λ x. x ∷ []) (placed_first read id off size)))
              ∙ sym (map-append (own read) seen ((id, off, size) ∷ ms)))
      | inr e ↦
          rw (e, chunks)
            (restored-chunks budget read start (max end until)
                (cms ++ (id, sub32 from start, size) ∷ []) (seen ++ (id, off, size) ∷ []) ms hs
                (map-append (placed read start) cms _
                  ∙ ap₂ ◌++◌ h (ap (λ x. x ∷ []) (placed-own read start id off size hs))
                  ∙ sym (map-append (own read) seen _))
              ∙ ap (map (own read)) (append_assoc seen ((id, off, size) ∷ []) ms))
    ]

restored-split_members :
    (budget : ℕ) (read : CoalescedRead) (ms : List Member)
    → flat_map restored (split_members budget read ms) ≡ map (own read) ms
unfolding split_members
restored-split_members budget read [] = refl
restored-split_members budget read ((id, off, size) ∷ ms) =
    restored-chunks budget read (add32 read.region.address off) _ ((id, 0, size) ∷ [])
      ((id, off, size) ∷ []) ms (omega arith) (ap (λ x. x ∷ []) (placed_first read id off size))

restored-split_read :
    (budget : ℕ) (read : CoalescedRead)
    → Permᴰ (restored read) (flat_map restored (split_read budget read))
unfolding split_read
restored-split_read budget read = elim (Bool-cases (leb read.region.size budget)) [
  | inl e ↦ rw e (rw append-nil (Permᴰ.refl _))
  | inr e ↦
      rw (e, restored-split_members) (Permᴰ.map (own read) (sort_by-perm by_offset read.members))
]

-- Splitting keeps every member: the chunks hold the members of the reads, each once, at the
-- address and with the size that it had, for every budget.
pub restored-split_reads_to_budget :
    (reads : List CoalescedRead) (budget : ℕ)
    → Permᴰ (flat_map restored reads) (flat_map restored (split_reads_to_budget reads budget))
unfolding split_reads_to_budget
restored-split_reads_to_budget [] budget = Permᴰ.nil
restored-split_reads_to_budget (r ∷ rs) budget = rw flat_map-append (
    Permᴰ.trans (Permᴰ.append_right _ (restored-split_read (max budget 1) r))
      (Permᴰ.append_left _ (restored-split_reads_to_budget rs budget)))
