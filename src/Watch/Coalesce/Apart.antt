-- ===== src/Watch/Coalesce/Apart.antt =====
-- That no two of the merged reads could have been merged with one another.
use sni_lua.Client.{space_i32, mapping_i32}
use sni_lua.Common.Sort.{IsSorted}
use sni_lua.Common.{
  ℕ, ◌+◌, ◌≤◌, ◌<◌, ◌≡◌, ◌≢◌, refl, sym, ◌∙◌, List, [], ◌∷◌, ◌++◌, All, All-append, All-map_of, ◌⊎◌,
  inl, inr, true, arith, Bool-cases, add32, u32_mod, saturating_add32, leb, leb→le, leb_false→lt,
  max,
}
use sni_lua.Watch.Coalesce.Members.{IsGroup}
use sni_lua.Watch.Coalesce.{
  CoalescedRead, Space, space_of, by_address, finish_run, coalesce_group, coalesce_sorted,
}
use sni_lua.Watch.{WatchHandle, InRange}

abbrev pub read_space : CoalescedRead → Space
read_space r = (space_i32 r.region.space, mapping_i32 r.region.mapping)

-- Of another space, or beyond the gap.
abbrev pub Apart : ℕ → CoalescedRead → CoalescedRead → Type 0
Apart gap r r' =
    (read_space r ≢ read_space r') ⊎ (r.region.address + r.region.size + gap < r'.region.address)

abbrev pub AllApart : ℕ → List CoalescedRead → Type 0
AllApart gap [] = Unit
AllApart gap (r ∷ rs) = All (Apart gap r) rs × AllApart gap rs

pub AllApart-append :
    (gap : ℕ) (rs ss : List CoalescedRead)
    → AllApart gap rs
    → AllApart gap ss
    → All (λ r. All (Apart gap r) ss) rs
    → AllApart gap (rs ++ ss)
AllApart-append gap [] ss hr hs h = hs
AllApart-append gap (r ∷ rs) ss hr hs h =
    (All-append (Apart gap r) rs ss hr.0 h.0, AllApart-append gap rs ss hr.1 hs h.1)

-- All reads of a run of `coalesce_group` start at `start` or later, and are of the head's space.
abbrev StartsAt : ℕ → Space → CoalescedRead → Type 0
StartsAt lo k r = (lo ≤ r.region.address) × (read_space r ≡ k)

StartsAt-mono :
    (lo lo' : ℕ) (k : Space) → lo' ≤ lo → (r : CoalescedRead) → StartsAt lo k r → StartsAt lo' k r
StartsAt-mono lo lo' k h r s = (omega (arith, s.0), s.1)

abbrev Next : Space → ℕ → WatchHandle → Type 0
Next k lo w = InRange w.region × (space_of w ≡ k) × (lo ≤ w.region.address)

Next-later :
    (k : Space) (lo : ℕ) (w : WatchHandle) (l : List WatchHandle)
    → All (Next k lo) l
    → All (λ v. by_address w v ≡ true) l
    → All (Next k w.region.address) l
Next-later k lo w [] f b = tt
Next-later k lo w (v ∷ l) f b =
    ((f.0.0, f.0.1, leb→le w.region.address v.region.address b.0), Next-later k lo w l f.1 b.1)

-- The rest of a group, seen from the watch that begins a new run.
Next-own :
    (k : Space) (lo : ℕ) (w : WatchHandle) (ws : List WatchHandle)
    → space_of w ≡ k
    → All (Next k lo) ws
    → All (λ v. by_address w v ≡ true) ws
    → All (Next (space_of w) w.region.address) ws
Next-own k lo w ws e h b =
    All-map_of (Next k w.region.address) (Next (space_of w) w.region.address)
      (λ v n. (n.0, n.1 ∙ sym e, n.2)) ws (Next-later k lo w ws h b)

coalesce_group-StartsAt :
    (gap start end : ℕ) (head : WatchHandle) (ms ws : List WatchHandle)
    → All (Next (space_of head) start) ws
    → IsSorted by_address ws
    → All (StartsAt start (space_of head)) (coalesce_group gap start end head ms ws)
unfolding coalesce_group finish_run
coalesce_group-StartsAt gap start end head ms [] h s = ((omega arith, refl), tt)
coalesce_group-StartsAt gap start end head ms (w ∷ ws) h s =
    elim (Bool-cases (leb w.region.address (saturating_add32 end gap))) [
      | inl e ↦
          rw (e, coalesce_group)
            (coalesce_group-StartsAt gap start (max end (add32 w.region.address w.region.size)) head
              (ms ++ w ∷ []) ws h.1 s.1)
      | inr e ↦
          rw (e, coalesce_group)
            (
              (omega arith, refl),
              All-map_of _ _ (λ r t. (omega (arith, t.0, h.0.2), t.1 ∙ h.0.1)) _
                  (coalesce_group-StartsAt gap w.region.address
                    (add32 w.region.address w.region.size) w [] ws
                    (Next-own (space_of head) start w ws h.0.1 h.1 s.0) s.1),
            )
    ]

finish_run-Apart :
    (gap start end : ℕ) (head : WatchHandle) (ms : List WatchHandle) (lo : ℕ) (k : Space)
    → start ≤ end
    → end < u32_mod
    → end + gap < lo
    → (r : CoalescedRead) → StartsAt lo k r
    → Apart gap (finish_run start end head ms) r
unfolding finish_run
finish_run-Apart gap start end head ms lo k hs he hl r t = inr (omega (arith, t.0))

coalesce_group-AllApart :
    (gap start end : ℕ) (head : WatchHandle) (ms ws : List WatchHandle)
    → start ≤ end
    → end < u32_mod
    → All (Next (space_of head) start) ws
    → IsSorted by_address ws
    → AllApart gap (coalesce_group gap start end head ms ws)
unfolding coalesce_group
coalesce_group-AllApart gap start end head ms [] hs he h s = (tt, tt)
coalesce_group-AllApart gap start end head ms (w ∷ ws) hs he h s =
    elim (Bool-cases (leb w.region.address (saturating_add32 end gap))) [
      | inl e ↦
          rw (e, coalesce_group)
            (coalesce_group-AllApart gap start (max end (add32 w.region.address w.region.size)) head
              (ms ++ w ∷ []) ws (omega arith) (omega (arith, h.0.0)) h.1 s.1)
      | inr e ↦
          let own : All (Next (space_of w) w.region.address) ws =
            Next-own (space_of head) start w ws h.0.1 h.1 s.0 in
          let beyond : end + gap < w.region.address =
            omega (arith, leb_false→lt w.region.address (saturating_add32 end gap) e, h.0.0) in
          let watch_end = add32 w.region.address w.region.size in
          rw (e, coalesce_group)
            (
              All-map_of (StartsAt w.region.address (space_of w))
                  (Apart gap (finish_run start end head ms))
                  (finish_run-Apart gap start end head ms w.region.address (space_of w) hs he
                    beyond)
                  (coalesce_group gap w.region.address watch_end w [] ws)
                  (coalesce_group-StartsAt gap w.region.address watch_end w [] ws own s.1),
              coalesce_group-AllApart gap w.region.address watch_end w [] ws (omega (arith, h.0.0))
                  (omega (arith, h.0.0)) own s.1,
            )
    ]

pub group-AllApart :
    (gap : ℕ) (k : Space) (ws : List WatchHandle)
    → IsGroup (k, ws)
    → IsSorted by_address ws
    → AllApart gap (coalesce_sorted gap ws) × All (λ r. read_space r ≡ k) (coalesce_sorted gap ws)
unfolding coalesce_sorted
group-AllApart gap k [] h s = (tt, tt)
group-AllApart gap k (w ∷ ws) h s = (
  coalesce_group-AllApart gap w.region.address (add32 w.region.address w.region.size) w [] ws
      (omega (arith, h.0.0)) (omega (arith, h.0.0)) own s.1,
  All-map_of _ _ (λ r t. t.1 ∙ h.0.1) _
      (coalesce_group-StartsAt gap w.region.address (add32 w.region.address w.region.size) w [] ws
        own s.1),
)
  where
    own : All (Next (space_of w) w.region.address) ws
    own =
        Next-own k 0 w ws h.0.1 (All-map_of _ (Next k 0) (λ v g. (g.0, g.1, omega arith)) ws h.1)
          s.0
