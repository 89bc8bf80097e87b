-- ===== src/Engine/Drain/Trace.antt =====
-- What the drain loop makes of the snapshot, when the console answers with its memory.
use sni_lua.Client.{MemRegion, SniError, Result, ok, err, multi_read}
use sni_lua.Common.Float.{Float}
use sni_lua.Common.IdSet.{IdSet, contains}
use sni_lua.Common.{
  ℕ, zero, suc, ◌<◌, ◌≡◌, refl, sym, subst, ◌∙◌, ap, true, false, List, [], ◌∷◌, map, Memᴰ, All,
  All-retain, Option, some, Bool-cases, inl, inr, ◌⊎◌, arith,
}
use sni_lua.Engine.Apply.Cycle.{Serves, applied_reads}
use sni_lua.Engine.Apply.Fresh.{Distinct, Serves-split, All-select_bulk, reply_of}
use sni_lua.Engine.Apply.Slices.{Memory, peek}
use sni_lua.Engine.Apply.{apply_reads}
use sni_lua.Engine.Drain.Turn.{stopped, went, batch_of, drain_round-Turned}
use sni_lua.Engine.Drain.Total.{undone, drain_loop-total}
use sni_lua.Engine.Drain.{
  Round, Drain, DrainEnv, regions_of, succeed, pending_reads, drain_round, drain_loop,
}
use sni_lua.Engine.Pending.Marks.{is_read, contains-mark_done}
use sni_lua.Engine.Pending.{mark_done}
use sni_lua.Engine.Split.{split_reads_to_budget}
use sni_lua.Snapshot.Builder.{Cell, built, fresh}
use sni_lua.Watch.Coalesce.{CoalescedRead, coalesce}
use sni_lua.Watch.{WatchHandle, InRange}

-- In this turn the console answers any batch with its memory, or with an error.
abbrev pub Answers : Memory → Round → Type 0
Answers mem round =
    (regions : List MemRegion)
    → (multi_read round.call regions ≡ ok (map (peek mem) regions))
      ⊎ ((e : SniError) × (multi_read round.call regions ≡ err e))

pub map_regions :
    (mem : Memory) (rs : List CoalescedRead) → map (peek mem) (regions_of rs) ≡ reply_of mem rs
map_regions mem [] = refl
map_regions mem (r ∷ rs) = ap (λ l. peek mem r.region ∷ l) (map_regions mem rs)

-- A watch that is not done is as it was at the start; one that is done holds the memory of one
-- of the turns at its own region, and has age 0.
abbrev pub Traced : (ℕ → Memory) → WatchHandle → Cell → IdSet → Cell → Type 0
Traced mems w start done cell =
    ((contains w.id done ≡ false) × (cell ≡ start))
    ⊎ ((contains w.id done ≡ true) × ((k : ℕ) × (cell ≡ fresh w.region (peek (mems k) w.region))))

-- What every turn keeps, the loop keeps.
pub drain_loop-invariant :
    (fl : Float) (env : DrainEnv fl.F) (rounds : ℕ → Round) (P : Drain fl.F → Type 0)
    → ((i : ℕ) (d : Drain fl.F) → P d → P (drain_round fl env (rounds i) d).0)
    → (fuel i : ℕ) (d d' : Drain fl.F) → P d
    → drain_loop fl fuel env rounds i d ≡ some d'
    → P d'
unfolding drain_loop
drain_loop-invariant fl env rounds P keeps zero i d d' p h = ground (arith, h)
drain_loop-invariant fl env rounds P keeps (suc fuel) i d d' p h =
    let turn = drain_round fl env (rounds i) d in
    elim (Bool-cases turn.1) [
      | inl e ↦
          drain_loop-invariant fl env rounds P keeps fuel (suc i) turn.0 d' (keeps i d p)
            (rw (e, drain_loop) at h)
      | inr e ↦ subst P (some_injective (rw (e, drain_loop) at h)) (keeps i d p)
    ]
  where
    some_injective : {a b : Drain fl.F} → Path (Option (Drain fl.F)) (some a) (some b) → a ≡ b
    some_injective q = ground (arith, q)

module _ (fl : Float) (env : DrainEnv fl.F) (rounds : ℕ → Round) (mems : ℕ → Memory)
    (answers : (k : ℕ) → Answers (mems k) (rounds k)) (w : WatchHandle) (start : Cell)
    (serves : (budget : ℕ)
      → All (Serves w.id w.region) (split_reads_to_budget env.coalesced_all budget)) where
  abbrev IsTraced : Drain fl.F → Type 0
  IsTraced d = Traced mems w start d.done_this_cycle (built d.builder w.id)

  batch-Serves :
      (i budget : ℕ) (d : Drain fl.F)
      → All (Serves w.id w.region) (batch_of fl env (rounds i) budget d)
  unfolding pending_reads
  batch-Serves i budget d =
      All-select_bulk (Serves w.id w.region) _ budget d.read_state env.cycle
        (All-retain (Serves w.id w.region) _ _ (serves budget))

  ok_answer :
      (i : ℕ) (rs : List CoalescedRead) (blobs : List (List ℕ))
      → multi_read (rounds i).call (regions_of rs) ≡ ok blobs
      → blobs ≡ reply_of (mems i) rs
  ok_answer i rs blobs e = elim (answers i (regions_of rs)) [
    | inl q ↦ ok_injective (sym e ∙ q) ∙ map_regions (mems i) rs
    | inr (x, q) ↦ ground (arith, sym e ∙ q)
  ]
    where
      ok_injective : {a b : List (List ℕ)} → Path (Result (List (List ℕ))) (ok a) (ok b) → a ≡ b
      ok_injective p = ground (arith, p)

  read_once :
      (i : ℕ) (rs : List CoalescedRead) (d : Drain fl.F)
      → All (Serves w.id w.region) rs
      → IsTraced d
      → Traced mems w start
          (mark_done rs d.done_this_cycle)
          (built (apply_reads rs (reply_of (mems i) rs) d.builder) w.id)
  read_once i rs d s t =
      subst (Traced mems w start (mark_done rs d.done_this_cycle))
        (sym (applied_reads w.id w.region (mems i) rs d.builder s))
        (elim (Bool-cases (is_read w.id rs)) [
          | inl e ↦ inr (contains-mark_done w.id rs d.done_this_cycle ∙ rw e, (i, rw e))
          | inr e ↦ elim t [
            | inl (f, c) ↦ inl (contains-mark_done w.id rs d.done_this_cycle ∙ rw (e, f), rw e c)
            | inr (f, (k, c)) ↦
                inr (contains-mark_done w.id rs d.done_this_cycle ∙ rw (e, f), (k, rw e c))
          ]
        ])

  drain_round-Traced :
      (i : ℕ) (d : Drain fl.F) → IsTraced d → IsTraced (drain_round fl env (rounds i) d).0
  unfolding succeed
  drain_round-Traced i d t = elim (drain_round-Turned fl env (rounds i) d) [
    | stopped e b s u ↦ rw (b, s) t
    | went budget capped blobs ne e q ↦
        let rs = batch_of fl env (rounds i) budget d in
        rw (q, ok_answer i rs blobs e) (read_once i rs d (batch-Serves i budget d) t)
  ]

-- The drain loop of a cycle ends, given fuel for each requested watch and one turn more, and then
-- every watch that it was to poll either holds exactly what the console's memory was, at its own
-- region, in some turn, with age 0, if a batch has serviced it, or is as it was: for any watches
-- with distinct ids that end below 2 ^ 32, merged with any gap, and a console that answers each
-- batch with its memory of that moment or with an error.
pub drain_loop-Traced :
    (fl : Float) (env : DrainEnv fl.F) (rounds : ℕ → Round) (mems : ℕ → Memory)
    → ((k : ℕ) → Answers (mems k) (rounds k))
    → (ws : List WatchHandle) (gap : ℕ) → env.coalesced_all ≡ coalesce ws gap
    → All (λ v. InRange v.region) ws
    → Distinct ws
    → (d : Drain fl.F) (fuel : ℕ) → d.done_this_cycle ≡ []
    → undone env.request_seq [] < fuel
    → (d' : Drain fl.F) × (drain_loop fl fuel env rounds 0 d ≡ some d')
      × ((w : WatchHandle)
          → Memᴰ w ws
          → Traced mems w (built d.builder w.id) d'.done_this_cycle (built d'.builder w.id))
unfolding contains
drain_loop-Traced fl env rounds mems answers ws gap ec hr hd d fuel none_done enough =
    let enough' : undone env.request_seq d.done_this_cycle < fuel = rw none_done enough in
    let (d', e) = drain_loop-total fl env rounds fuel 0 d enough' in
    (
      d',
      e,
      λ w m.
          drain_loop-invariant fl env rounds
            (λ x. Traced mems w (built d.builder w.id) x.done_this_cycle (built x.builder w.id))
            (drain_round-Traced fl env rounds mems answers w (built d.builder w.id)
              (λ budget. rw ec (Serves-split w ws gap budget hr hd m)))
            fuel 0 d d' (inl (rw (none_done, contains) refl, refl)) e,
    )
