-- ===== src/Actor/Slot.antt =====
-- What the poll engine finds in the slot, and where a write goes.
use sni_lua.Client.{Result, ok, err, MemoryMapping, DeviceInfo}
use sni_lua.Common.{
  ◌⊎◌, false, ◌≡◌, refl, sym, subst, ◌∙◌, ap, true, List, [], ◌∷◌, Option, none, some, Bool-cases,
  Option-cases, inl, inr, Str, str_eq_refl,
}
use sni_lua.Actor.{
  Actor, Answers, Cmd, connect, disconnect, refresh_devices, select_device, probe, write, start,
  both, with_mapping, set_conn, republish_slot, detect_mapping, relist, refresh, connect_to, select,
  probe_region, write_region, handle, run, is_listed, reselect,
}

module _ {C : Type 0} where
  -- The slot is the client and the selected device, if there are both.
  abbrev pub IsPublished : Actor C → Type 0
  IsPublished a = a.slot ≡ both a.client a.state.selected_uri

  refresh-IsPublished :
      (ans : Answers C) (a : Actor C) → IsPublished a → IsPublished (refresh ans a)
  unfolding refresh republish_slot
  refresh-IsPublished ans a h = elim (Option-cases a.client) [
    | inl e ↦ rw (e, refresh) h
    | inr (c, e) ↦ rw (e, refresh) refl
  ]

  connect_to-IsPublished :
      (ans : Answers C) (r : Result C) (a : Actor C)
      → IsPublished a
      → IsPublished (connect_to ans r a)
  unfolding connect_to refresh set_conn republish_slot
  connect_to-IsPublished ans (ok c) a h = refl
  connect_to-IsPublished ans (err e) a h = h

  handle-IsPublished :
      (cmd : Cmd × Answers C) (a : Actor C) → IsPublished a → IsPublished (handle cmd a)
  unfolding handle select probe_region write_region republish_slot
  handle-IsPublished (connect endpoint, ans) a h = connect_to-IsPublished ans ans.connected a h
  handle-IsPublished (disconnect, ans) a h = refl
  handle-IsPublished (refresh_devices, ans) a h = refresh-IsPublished ans a h
  handle-IsPublished (select_device uri, ans) a h = refl
  handle-IsPublished (probe region, ans) a h = h
  handle-IsPublished (write region bytes, ans) a h =
      elim (Option-cases (both a.client a.state.selected_uri)) [
        | inl e ↦ rw (e, write_region) h
        | inr (p, e) ↦ rw (e, write_region) h
      ]

  run_of : (cmds : List (Cmd × Answers C)) (a : Actor C) → IsPublished a → IsPublished (run cmds a)
  unfolding run
  run_of [] a h = h
  run_of (cmd ∷ cmds) a h = run_of cmds (handle cmd a) (handle-IsPublished cmd a h)

-- After any commands, with any answers of the service, the poll engine finds in the slot exactly
-- the actor's client and the selected device, or nothing if either is missing.
pub run-IsPublished : {C : Type 0} (cmds : List (Cmd × Answers C)) → IsPublished (run cmds start)
unfolding start
run-IsPublished cmds = run_of cmds start refl

reselect-listed :
    (d : DeviceInfo) (ds : List DeviceInfo) (o : Option Str)
    → (u : Str) × (reselect (d ∷ ds) o ≡ some u) × (is_listed (d ∷ ds) u ≡ true)
unfolding reselect is_listed
reselect-listed d ds none = (d.uri, refl, rw (str_eq_refl d.uri))
reselect-listed d ds (some u) = elim (Bool-cases (is_listed (d ∷ ds) u)) [
  | inl e ↦ (u, rw e refl, e)
  | inr e ↦ (d.uri, rw e refl, rw (str_eq_refl d.uri))
]

reselect_kept :
    (d : DeviceInfo) (ds : List DeviceInfo) (v : Str)
    → is_listed (d ∷ ds) v ≡ true
    → reselect (d ∷ ds) (some v) ≡ some v
unfolding reselect
reselect_kept d ds v h = rw h refl

module _ {C : Type 0} where
  selected-relist :
      (r : Result (List DeviceInfo)) (a : Actor C) (d : DeviceInfo) (ds : List DeviceInfo)
      → r ≡ ok (d ∷ ds)
      → (relist r a).state.selected_uri ≡ reselect (d ∷ ds) a.state.selected_uri
  unfolding relist
  selected-relist r a d ds h = rw h refl

  client-relist : (r : Result (List DeviceInfo)) (a : Actor C) → (relist r a).client ≡ a.client
  unfolding relist set_conn
  client-relist (ok ds) a = refl
  client-relist (err e) a = refl

  slot-detected :
      (ans : Answers C) (a : Actor C)
      → (republish_slot (detect_mapping ans a)).slot ≡ both a.client a.state.selected_uri
  unfolding republish_slot detect_mapping
  slot-detected ans a = elim (Option-cases a.client) [
    | inl e ↦ rw (e, detect_mapping)
    | inr (c, e) ↦ rw (e, detect_mapping) (go c ans.detected)
  ]
    where
      go :
          (c : C) (r : Result MemoryMapping)
          → both (some c) (with_mapping r a.state).selected_uri ≡ both (some c) a.state.selected_uri
      go c (ok m) = refl
      go c (err e) = refl

  slot-refresh-some :
      (ans : Answers C) (a : Actor C) (c : C)
      → (refresh ans (record a { client = some c })).slot
        ≡ both (some c) (relist ans.listed (record a { client = some c })).state.selected_uri
  unfolding refresh republish_slot
  slot-refresh-some ans a c =
      let a' = relist ans.listed (record a { client = some c }) in
      let kept : a'.client ≡ some c = client-relist ans.listed (record a { client = some c }) in
      elim (Option-cases a'.state.selected_uri) [
        | inl e ↦ rw (e, refresh) (rw (kept, e) refl)
        | inr (u, e) ↦ rw (e, refresh) (slot-detected ans a' ∙ rw (kept, e) refl)
      ]

  slot-refresh :
      (ans : Answers C) (a : Actor C) (c : C)
      → a.client ≡ some c
      → (refresh ans a).slot ≡ both (some c) (relist ans.listed a).state.selected_uri
  slot-refresh ans a c h =
      subst
        (λ o.
          (refresh ans (record a { client = o })).slot
          ≡ both (some c) (relist ans.listed (record a { client = o })).state.selected_uri)
        (sym h) (slot-refresh-some ans a c)

-- When a connected actor gets a list with a device in it, it selects a device of that list, the one
-- selected before if it is still there, and the engine polls that one.
pub refresh-selects :
    {C : Type 0} (ans : Answers C) (a : Actor C) (c : C) (d : DeviceInfo) (ds : List DeviceInfo)
    → a.client ≡ some c
    → ans.listed ≡ ok (d ∷ ds)
    → (u : Str) × ((refresh ans a).slot ≡ some (c, u))
      × (is_listed (d ∷ ds) u ≡ true)
      × ((a.state.selected_uri ≡ some u)
          ⊎ (elim a.state.selected_uri [ none ↦ false | some v ↦ is_listed (d ∷ ds) v ] ≡ false))
refresh-selects ans a c d ds hc hl =
    let (u, e, l) = reselect-listed d ds a.state.selected_uri in
    (
      u,
      slot-refresh ans a c hc ∙ ap (both (some c)) (selected-relist ans.listed a d ds hl ∙ e),
      l,
      kept a.state.selected_uri u e,
    )
  where
    kept :
        (o : Option Str) (u : Str)
        → reselect (d ∷ ds) o ≡ some u
        → (o ≡ some u) ⊎ (elim o [ none ↦ false | some v ↦ is_listed (d ∷ ds) v ] ≡ false)
    kept none u q = inr refl
    kept (some v) u q = elim (Bool-cases (is_listed (d ∷ ds) v)) [
      | inl lv ↦ inl (sym (reselect_kept d ds v lv) ∙ q)
      | inr gone ↦ inr gone
    ]
