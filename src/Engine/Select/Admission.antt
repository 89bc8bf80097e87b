-- ===== src/Engine/Select/Admission.antt =====
-- What a batch holds: the stalest read always, nothing that was not offered, no more than the
-- budget, and everything if it says that nothing was trimmed.
use mathlib.Core.List.Perm
use mathlib.Core.List.Permᴰ
use sni_lua.Common.Sort.{sort_by, sort_by-perm, IsSorted}
use sni_lua.Common.{
  ℕ, ◌+◌, ◌-◌, ◌≤◌, ◌≡◌, ◌≢◌, refl, List, [], ◌∷◌, ◌++◌, Bool, true, false, Permᴰ, All, All-perm,
  All-map_of, ◌⊎◌, inl, inr, arith, Bool-cases, leb, leb→le, length, if◌then◌else◌,
}
use sni_lua.Engine.Pending.{ReadStates}
use sni_lua.Engine.Select.Order.{order-IsSorted, goes_first-staler}
use sni_lua.Engine.Select.{staleness, goes_first, admit, select_bulk}
use sni_lua.Watch.Coalesce.{CoalescedRead}

-- the bytes that a batch asks for
unfoldable pub total_size : List CoalescedRead → ℕ
total_size [] = 0
total_size (r ∷ rs) = r.region.size + total_size rs

-- the reads that `admit` passes over
unfoldable pub left_over : ℕ → Bool → List CoalescedRead → List CoalescedRead
left_over remaining none_yet [] = []
left_over remaining none_yet (r ∷ rs) =
    let fits = left_over (remaining - r.region.size) false rs in
    let skips = left_over remaining false rs in
    if leb r.region.size remaining then fits else if none_yet then rs else r ∷ skips

admit-perm :
    (n : ℕ) (z : Bool) (rs : List CoalescedRead)
    → Permᴰ rs ((admit n z rs).reads ++ left_over n z rs)
unfolding admit left_over
admit-perm n z [] = Permᴰ.nil
admit-perm n z (r ∷ rs) = elim (Bool-cases (leb r.region.size n)) [
  | inl e ↦ rw (e, admit, left_over) (Permᴰ.cons refl (admit-perm (n - r.region.size) false rs))
  | inr e ↦ elim (Bool-cases z) [
    | inl q ↦ rw (e, q, admit, left_over) (Permᴰ.refl _)
    | inr q ↦
        rw (e, q, admit, left_over)
          (Permᴰ.trans (Permᴰ.cons refl (admit-perm n false rs)) (Permᴰ.symm (Permᴰ.middle r _ _)))
  ]
]

admit-uncapped :
    (n : ℕ) (z : Bool) (rs : List CoalescedRead)
    → (admit n z rs).capped ≡ false
    → left_over n z rs ≡ []
unfolding admit left_over
admit-uncapped n z [] h = refl
admit-uncapped n z (r ∷ rs) h = ground (arith, admit-uncapped (n - r.region.size) false rs)

admit-within : (n : ℕ) (rs : List CoalescedRead) → total_size (admit n false rs).reads ≤ n
unfolding admit total_size
admit-within n [] = omega arith
admit-within n (r ∷ rs) = ground (arith, admit-within n rs, admit-within (n - r.region.size) rs)

admit_first-within :
    (n : ℕ) (rs : List CoalescedRead)
    → (total_size (admit n true rs).reads ≤ n) ⊎ (length (admit n true rs).reads ≡ 1)
unfolding admit total_size
admit_first-within n [] = inl (omega arith)
admit_first-within n (r ∷ rs) = elim (Bool-cases (leb r.region.size n)) [
  | inl e ↦
      rw (e, admit)
        (inl (omega (arith, leb→le r.region.size n e, admit-within (n - r.region.size) rs)))
  | inr e ↦ rw (e, admit) (inr refl)
]

-- the first read offered is the first one admitted
admit-head :
    (n : ℕ) (r : CoalescedRead) (rs : List CoalescedRead)
    → (rest : List CoalescedRead) × ((admit n true (r ∷ rs)).reads ≡ r ∷ rest)
unfolding admit
admit-head n r rs = elim (Bool-cases (leb r.region.size n)) [
  | inl e ↦ ((admit (n - r.region.size) false rs).reads, rw e)
  | inr e ↦ ([], rw e)
]

stalest_of :
    (reads sorted : List CoalescedRead) (budget : ℕ) (read_state : ReadStates) (cycle : ℕ)
    → reads ≢ []
    → Permᴰ reads sorted
    → IsSorted (goes_first read_state cycle) sorted
    → (first : CoalescedRead) × (rest : List CoalescedRead) × ((admit budget true sorted).reads
        ≡ first ∷ rest)
      × All (λ r. staleness read_state cycle r ≤ staleness read_state cycle first) reads
stalest_of reads [] budget read_state cycle ne p s = absurd (ne (Perm.eq-nil ∣ p ∣₁))
stalest_of reads (r ∷ rs) budget read_state cycle ne p s =
    let (rest, e) = admit-head budget r rs in
    (
      r,
      rest,
      e,
      All-perm _ (Permᴰ.symm p)
          (omega arith, All-map_of _ _ (λ b h. goes_first-staler read_state cycle r b h) rs s.0),
    )

-- The batch and what is left over are the reads that were offered, each once; and if the batch
-- says that it was not capped, nothing is left over.
pub select_bulk-perm :
    (reads : List CoalescedRead) (budget : ℕ) (read_state : ReadStates) (cycle : ℕ)
    → (rest : List CoalescedRead) × Permᴰ reads
        ((select_bulk reads budget read_state cycle).reads ++ rest)
      × (((select_bulk reads budget read_state cycle).capped ≡ true) ⊎ (rest ≡ []))
unfolding select_bulk
select_bulk-perm reads budget read_state cycle =
    let sorted = sort_by (goes_first read_state cycle) reads in
    (
      left_over budget true sorted,
      Permᴰ.trans (sort_by-perm (goes_first read_state cycle) reads)
          (admit-perm budget true sorted),
      elim (Bool-cases (admit budget true sorted).capped) [
        | inl e ↦ inl e
        | inr e ↦ inr (admit-uncapped budget true sorted e)
      ],
    )

-- A batch asks for no more bytes than the budget, or is a single read that is larger.
pub select_bulk-within :
    (reads : List CoalescedRead) (budget : ℕ) (read_state : ReadStates) (cycle : ℕ)
    → (total_size (select_bulk reads budget read_state cycle).reads ≤ budget)
      ⊎ (length (select_bulk reads budget read_state cycle).reads ≡ 1)
unfolding select_bulk
select_bulk-within reads budget read_state cycle =
    admit_first-within budget (sort_by (goes_first read_state cycle) reads)

-- If any read is offered, the batch is not empty, and its first read is at least as stale as
-- every read that was offered: whatever the budget, the stalest data makes progress.
pub select_bulk-stalest :
    (reads : List CoalescedRead) (budget : ℕ) (read_state : ReadStates) (cycle : ℕ)
    → reads ≢ []
    → (first : CoalescedRead) × (rest : List CoalescedRead) × ((select_bulk reads budget read_state
          cycle).reads
        ≡ first ∷ rest)
      × All (λ r. staleness read_state cycle r ≤ staleness read_state cycle first) reads
unfolding select_bulk
select_bulk-stalest reads budget read_state cycle ne =
    stalest_of reads (sort_by (goes_first read_state cycle) reads) budget read_state cycle ne
      (sort_by-perm (goes_first read_state cycle) reads) (order-IsSorted read_state cycle reads)
