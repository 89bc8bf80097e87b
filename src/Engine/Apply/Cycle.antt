-- ===== src/Engine/Apply/Cycle.antt =====
-- What `apply_reads` makes of the builder, watch by watch.
use sni_lua.Client.{MemRegion}
use sni_lua.Common.{
  ℕ, ◌+◌, ◌≡◌, refl, sym, ap, subst, ◌∙◌, true, false, ◌&&◌, List, [], ◌∷◌, map, some, All,
  All-append_left, All-append_right, flat_map, ◌⊎◌, inl, inr, arith, Bool-cases, if◌then◌else◌, leb,
  leb→le, le→leb, ◌==◌, length,
}
use sni_lua.Engine.Apply.Slices.{
  Memory, bytes_from, peek, length-bytes_from, slice-bytes_from, length-slice,
}
use sni_lua.Engine.Apply.{slice, apply_member, apply_members, apply_reads}
use sni_lua.Engine.Pending.Marks.{has_member, is_read}
use sni_lua.Engine.Split.{Member}
use sni_lua.Snapshot.Builder.{Cell, built, built-set, fresh, unread}
use sni_lua.Snapshot.{SnapshotBuilder}
use sni_lua.Watch.Coalesce.Bounds.{Inside, IsWithin}
use sni_lua.Watch.Coalesce.Members.{member_region, restored}
use sni_lua.Watch.Coalesce.{CoalescedRead}

-- The bytes of every watch are as many as its region has.
abbrev pub IsSized : Cell → Type 0
IsSized c =
    (c ≡ unread)
    ⊎ ((r : MemRegion) × (bs : List ℕ) × (c.bytes ≡ some bs)
        × (c.region ≡ some r)
        × (length bs ≡ r.size))

built-apply_member :
    (read : CoalescedRead) (blob : List ℕ) (m : Member) (b : SnapshotBuilder) (id : ℕ)
    → built (apply_member read blob m b) id ≡ (
        if leb (m.1 + m.2) (length blob) && (m.0 == id)
        then fresh (member_region read m) (slice m.1 m.2 blob)
        else built b id)
unfolding apply_member
built-apply_member read blob (wid, off, sz) b id =
    elim (Bool-cases (leb (off + sz) (length blob))) [
      | inl e ↦ rw (e, apply_member) (built-set b wid id _ _)
      | inr e ↦ rw (e, apply_member)
    ]

apply_member-IsSized :
    (read : CoalescedRead) (blob : List ℕ) (m : Member) (b : SnapshotBuilder)
    → ((id : ℕ) → IsSized (built b id))
    → (id : ℕ) → IsSized (built (apply_member read blob m b) id)
apply_member-IsSized read blob (wid, off, sz) b h id =
    subst IsSized (sym (built-apply_member read blob (wid, off, sz) b id))
      (elim (Bool-cases (leb (off + sz) (length blob))) [
        | inl e ↦ rw e (elim (Bool-cases (wid == id)) [
          | inl q ↦ rw q (inr (_, _, refl, refl, length-slice off sz blob (leb→le _ _ e)))
          | inr q ↦ rw q (h id)
        ])
        | inr e ↦ rw e (h id)
      ])

apply_members-IsSized :
    (read : CoalescedRead) (blob : List ℕ) (ms : List Member) (b : SnapshotBuilder)
    → ((id : ℕ) → IsSized (built b id))
    → (id : ℕ) → IsSized (built (apply_members read blob ms b) id)
unfolding apply_members
apply_members-IsSized read blob [] b h = h
apply_members-IsSized read blob (m ∷ ms) b h =
    apply_members-IsSized read blob ms (apply_member read blob m b)
      (apply_member-IsSized read blob m b h)

-- every cell of a builder
pub record AllSized (b : SnapshotBuilder) : Type 0 where
  pub sized : (id : ℕ) → IsSized (built b id)

-- Whatever the replies hold, and however short they are, a watch's bytes stay as many as its
-- region has, for every watch of a builder in which that holds.
pub apply_reads-AllSized :
    (reads : List CoalescedRead) (blobs : List (List ℕ)) (b : SnapshotBuilder)
    → AllSized b
    → AllSized (apply_reads reads blobs b)
unfolding apply_reads
apply_reads-AllSized [] blobs b h = h
apply_reads-AllSized (r ∷ rs) [] b h = h
apply_reads-AllSized (r ∷ rs) (x ∷ xs) b h =
    apply_reads-AllSized rs xs (apply_members r x r.members b)
      (record { sized = apply_members-IsSized r x r.members b h.sized })

-- No other region goes by this id.
abbrev pub Only : ℕ → MemRegion → ℕ × MemRegion → Type 0
Only id r e = ((e.0 == id) ≡ false) ⊎ (e.1 ≡ r)

-- The read holds its members whole, and the watch's bytes under its id alone.
abbrev pub Serves : ℕ → MemRegion → CoalescedRead → Type 0
Serves id r read = IsWithin read × All (Only id r) (restored read)

pub Serves-reads :
    (id : ℕ) (r : MemRegion) (reads : List CoalescedRead)
    → All IsWithin reads
    → All (Only id r) (flat_map restored reads)
    → All (Serves id r) reads
Serves-reads id r [] w o = tt
Serves-reads id r (read ∷ reads) w o = (
  (w.0, All-append_left (Only id r) (restored read) _ o),
  Serves-reads id r reads w.1 (All-append_right (Only id r) (restored read) _ o),
)

module _ (id : ℕ) (r : MemRegion) (mem : Memory) where
  sliced :
      (read : CoalescedRead) (m : Member)
      → IsWithin read
      → Inside read m
      → slice m.1 m.2 (peek mem read.region) ≡ peek mem (member_region read m)
  sliced read (wid, off, sz) w h =
      slice-bytes_from _ read.region.address read.region.size off sz h
      ∙ ap (λ a. bytes_from (mem read.region.space read.region.mapping) a sz)
          (omega (arith, w.in_range.fits))

  applied_member :
      (read : CoalescedRead) (m : Member) (b : SnapshotBuilder)
      → IsWithin read
      → Inside read m
      → Only id r (m.0, member_region read m)
      → built (apply_member read (peek mem read.region) m b) id
        ≡ (if m.0 == id then fresh r (peek mem r) else built b id)
  applied_member read (wid, off, sz) b w h o =
      let blob = peek mem read.region in
      let whole : leb (off + sz) (length blob) ≡ true =
        rw length-bytes_from (le→leb (off + sz) read.region.size h) in
      built-apply_member read blob (wid, off, sz) b id
      ∙ rw (whole, sliced read (wid, off, sz) w h)
          (elim o [
            | inl q ↦ rw q
            | inr q ↦ ap (λ x. if wid == id then fresh x (peek mem x) else built b id) q
          ])

  applied_members :
      (read : CoalescedRead) (ms : List Member) (b : SnapshotBuilder)
      → IsWithin read
      → All (Inside read) ms
      → All (λ m. Only id r (m.0, member_region read m)) ms
      → built (apply_members read (peek mem read.region) ms b) id
        ≡ (if has_member id ms then fresh r (peek mem r) else built b id)
  unfolding apply_members has_member
  applied_members read [] b w h o = refl
  applied_members read (m ∷ ms) b w h o =
      applied_members read ms (apply_member read (peek mem read.region) m b) w h.1 o.1
      ∙ rw (applied_member read m b w h.0 o.0) (ground arith)

  Only-members :
      (read : CoalescedRead) (ms : List Member)
      → All (Only id r) (map (λ m. (m.0, member_region read m)) ms)
      → All (λ m. Only id r (m.0, member_region read m)) ms
  Only-members read [] o = tt
  Only-members read (m ∷ ms) o = (o.0, Only-members read ms o.1)

  -- A full reply gives the watch the memory at its own region, if the batch reads it, and leaves
  -- it as it was otherwise.
  pub applied_reads :
      (reads : List CoalescedRead) (b : SnapshotBuilder)
      → All (Serves id r) reads
      → built (apply_reads reads (map (λ read. peek mem read.region) reads) b) id
        ≡ (if is_read id reads then fresh r (peek mem r) else built b id)
  unfolding apply_reads is_read
  applied_reads [] b w = refl
  applied_reads (read ∷ reads) b w =
      applied_reads reads (apply_members read (peek mem read.region) read.members b) w.1
      ∙ rw
          (applied_members read read.members b w.0.0 w.0.0.inside
            (Only-members read read.members w.0.1))
          (ground arith)

-- The read has no member of this id.
abbrev pub Avoids : ℕ → CoalescedRead → Type 0
Avoids id read = has_member id read.members ≡ false

pub is_read-Avoids :
    (id : ℕ) (reads : List CoalescedRead) → is_read id reads ≡ false → All (Avoids id) reads
unfolding is_read
is_read-Avoids id [] h = tt
is_read-Avoids id (r ∷ rs) h = (ground (arith, h), is_read-Avoids id rs (ground (arith, h)))

avoided_members :
    (id : ℕ) (read : CoalescedRead) (blob : List ℕ) (ms : List Member) (b : SnapshotBuilder)
    → has_member id ms ≡ false
    → built (apply_members read blob ms b) id ≡ built b id
unfolding apply_members has_member
avoided_members id read blob [] b h = refl
avoided_members id read blob (m ∷ ms) b h =
    let here : (m.0 == id) ≡ false = ground (arith, h) in
    let later : has_member id ms ≡ false = ground (arith, h) in
    avoided_members id read blob ms (apply_member read blob m b) later
    ∙ built-apply_member read blob m b id
    ∙ rw here (elim (Bool-cases (leb (m.1 + m.2) (length blob))) [ inl e ↦ rw e | inr e ↦ rw e ])

-- A reply, whatever it holds, changes no watch that the batch does not read.
pub apply_reads-avoided :
    (id : ℕ) (reads : List CoalescedRead) (blobs : List (List ℕ)) (b : SnapshotBuilder)
    → All (Avoids id) reads
    → built (apply_reads reads blobs b) id ≡ built b id
unfolding apply_reads
apply_reads-avoided id [] blobs b h = refl
apply_reads-avoided id (r ∷ rs) [] b h = refl
apply_reads-avoided id (r ∷ rs) (x ∷ xs) b h =
    apply_reads-avoided id rs xs (apply_members r x r.members b) h.1
    ∙ avoided_members id r x r.members b h.0
