-- ===== src/Host/Script/Reloading.antt =====
-- What a reload keeps of the script before.
use sni_lua.Common.Float.{Float}
use sni_lua.Common.{
  ℕ, ◌≡◌, refl, sym, ap, ◌∙◌, false, Option, none, some, Str, Bool-cases, inl, inr,
}
use sni_lua.Host.Script.{
  World, Http, Lua, ScriptHost, fire_unload, load_script, cleared, reset_drawing, forget_callbacks,
  build, load_cleared,
}
use sni_lua.Host.Values.{Json}
use sni_lua.Watch.Registry.{WatchRegistry}
use sni_lua.Watch.Registry as Registry

module _ (fl : Float) (d : Float) (js : Json d.F) {K R : Type 0}
    (lua : Lua (World fl.F d.F js.J K R) K R) where
  -- a new host on the services that a world has: its cleared registry, the snapshot, the writes queued
  -- and the HTTP bridge without callbacks, with its console and its store
  abbrev pub new_host : ℕ → World fl.F d.F js.J K R → ScriptHost fl lua
  new_host now w =
      let h =
        (build fl d js lua now (Registry.clear w.registry) w.snapshot
          (forget_callbacks w.http)).0 in
      record h {
        world = record h.world { console = w.console; store = w.store; writes = w.writes };
      }

  forget-forget :
      (h : Option (Http K R)) → forget_callbacks (forget_callbacks h) ≡ forget_callbacks h
  unfolding forget_callbacks
  forget-forget none = refl
  forget-forget (some h) = refl

  cleared-new_host :
      (now built : ℕ) (w : World fl.F d.F js.J K R)
      → cleared fl now (new_host built w).world ≡ cleared fl now w
  unfolding cleared reset_drawing build Registry.clear
  cleared-new_host now built w = λ i. record (cleared fl now w) { http = forget-forget w.http i }

  fire_unload-idle : (h : ScriptHost fl lua) → h.loaded ≡ false → fire_unload fl lua h ≡ h
  unfolding fire_unload
  fire_unload-idle h e = rw e refl

  pub fire_unload-loaded : (h : ScriptHost fl lua) → (fire_unload fl lua h).loaded ≡ false
  unfolding fire_unload
  fire_unload-loaded h = elim (Bool-cases h.loaded) [ inl e ↦ rw e refl | inr e ↦ rw e refl ]

  -- A script is loaded over another one as it would be loaded first, into a new host with the
  -- services that the other's `on_unload` left: of the script before, the new one is given nothing but
  -- the registry's counters, the engine's snapshot, which may still hold what was read for the watches
  -- before, the writes queued, the console, the store, and of HTTP the counters, the requests and the
  -- responses under way, whatever either does. And `on_unload` runs once: an unload after an unload
  -- does nothing.
  pub load_script-new_host :
      (src name : Str) (now built : ℕ) (h : ScriptHost fl lua)
      → let w = (fire_unload fl lua h).world in
        (load_script fl d js lua src name now h
          ≡ load_script fl d js lua src name now (new_host built w))
        × (fire_unload fl lua (fire_unload fl lua h) ≡ fire_unload fl lua h)
  unfolding load_script build
  load_script-new_host src name now built h =
      let w = (fire_unload fl lua h).world in
      let host = new_host built w in
      let idle = fire_unload-idle host refl in
      (
        ap (load_cleared fl d js lua src name)
            (sym (cleared-new_host now built w) ∙ ap (λ h. cleared fl now h.world) (sym idle)),
        fire_unload-idle (fire_unload fl lua h) (fire_unload-loaded h),
      )
