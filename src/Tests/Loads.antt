-- ===== src/Tests/Loads.antt =====
-- Loads, frames, unloads and the exit at concrete inputs.
use sni_lua.App.Exit.{on_exit-restored}
use sni_lua.App.{App, on_exit, setup}
use sni_lua.Config as Config
use sni_lua.Common.{
  ℕ, ◌≡◌, refl, true, false, [], ◌∷◌, ◌++◌, Option, some, none, map, Str, str, str_eq,
}
use sni_lua.Host.Script.Errors.{
  run_frames, run_frames-error, framed, blank, Outcome, load_script-Outcome,
}
use sni_lua.Host.Script.Reloading.{new_host, load_script-new_host}
use sni_lua.Host.Script.{
  ScriptHost, build, bind_store, load_script, cleared, fire_unload, log, call_logged, logged,
}
use sni_lua.Runtime.Store.{Parsed, object, Doc, Store, flush_if_dirty}
use sni_lua.Runtime.Store as Store
use sni_lua.Snapshot.{empty}
use sni_lua.Tests.Data.{whole, registry}
use sni_lua.Tests.Toys.{Tree, count, trees, toy}

-- a script is running
abbrev running : ScriptHost whole toy
running = record (build whole whole trees toy 5 registry empty none).0 {
  vm = str "old";
  loaded = true;
}

load_script-new_host_example :
    let w = (fire_unload whole toy running).world in
    (load_script whole whole trees toy (str "new") (str "b.lua") 9 running
      ≡ load_script whole whole trees toy
          (str "new")
          (str "b.lua")
          9
          (new_host whole whole trees toy 2 w))
    × (fire_unload whole toy (fire_unload whole toy running) ≡ fire_unload whole toy running)
load_script-new_host_example =
    load_script-new_host whole whole trees toy (str "new") (str "b.lua") 9 2 running

load_script-Outcome_example :
    Outcome whole whole trees toy
      (str "b.lua")
      (str "new", cleared whole 9 (fire_unload whole toy running).world, none)
      (load_script whole whole trees toy (str "new") (str "b.lua") 9 running)
load_script-Outcome_example =
    load_script-Outcome whole whole trees toy (str "new") (str "b.lua") 9 running refl

abbrev stopped : ScriptHost whole toy
stopped = record {
  vm = (framed whole toy 20 running).0;
  world = log whole (str "[on_frame error] " ++ str "boom") (framed whole toy 20 running).1;
  loaded = false;
}

run_frames-error_example :
    (run_frames whole toy (20 ∷ 30 ∷ 40 ∷ []) running
      ≡ (stopped, map (λ (t : ℕ). blank whole toy) (20 ∷ 30 ∷ 40 ∷ [])))
    × (fire_unload whole toy stopped ≡ stopped)
unfolding str_eq
run_frames-error_example =
    run_frames-error whole toy 20 (30 ∷ 40 ∷ []) running (λ vm w. (vm, w, some (str "boom")))
      (framed whole toy 20 running).0 (framed whole toy 20 running).1 (str "boom") refl refl refl

abbrev parse : Str → Parsed Tree
parse s = object ((str "coins", count 3) ∷ [])

abbrev saved_doc : Doc Tree
saved_doc = (str "hp", count 9) ∷ []

abbrev app : App whole whole trees toy
app = record {
  host = record running {
    world = record running.world {
      store = record { doc = []; path = some (str "a.json"); dirty = false };
    };
  };
  config = Config.default whole;
  draw_list = record { cmds = [] };
  script_path = str "a.lua";
  status = [];
  tab = setup;
}

on_exit-restored_example :
    let s = (fire_unload whole toy app.host).world.store in
    let print : Doc Tree → Option Str = λ m. some (str "hp=9") in
    let read : Str → Parsed Tree = λ s. object saved_doc in
    ((on_exit whole whole trees toy print app).0.host.loaded ≡ false)
    × ((on_exit whole whole trees toy print app).1 ≡ some (str "a.json", str "hp=9"))
    × ((on_exit whole whole trees toy print app).0.host.world.store ≡ record s { dirty = false })
    × ((bind_store whole whole trees toy read
          (some (str "hp=9"))
          (some (str "a.json"))
          running).world.store
        ≡ (on_exit whole whole trees toy print app).0.host.world.store)
unfolding str_eq fire_unload call_logged logged Store.set Store.put
on_exit-restored_example =
    on_exit-restored whole whole trees toy (λ m. some (str "hp=9")) (λ s. object saved_doc)
      (str "a.json") (str "hp=9") app running refl refl refl refl
