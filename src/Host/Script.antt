-- ===== src/Host/Script.antt =====
-- `ScriptHost`: the life cycle of a script. Lua is an interface: running a chunk, a function of the
-- script or a callback gives the machine and the world that it leaves, and the error it raised, if
-- any. The world is what the functions of `install_api` share with the script. An instant is a
-- number of nanoseconds.
pub mod Reloading
pub mod Frames
pub mod Errors
use sni_lua.Common.Float.{Float}
use sni_lua.Common.Map
use sni_lua.Common.Map.{Map}
use sni_lua.Common.{
  ℕ, suc, ◌-◌, Bool, true, false, List, [], ◌∷◌, ◌++◌, Option, none, some, Str, str, if◌then◌else◌,
}
use sni_lua.Controls.{Controls}
use sni_lua.Host.Panel.{persist_controls}
use sni_lua.Host.Values.{Json}
use sni_lua.Host.{Console, push, MouseFrame, MouseState, feed}
use sni_lua.Render.Font.{Font, small}
use sni_lua.Render.{Canvas, native, DrawList, PathPrimitive}
use sni_lua.Client.{MemRegion}
use sni_lua.Snapshot.{Snapshot}
use sni_lua.Runtime.Http.{HttpBridge}
use sni_lua.Runtime.Store.{Store, Parsed}
use sni_lua.Runtime.Store as Store
use sni_lua.Watch.Registry as Registry
use sni_lua.Watch.Registry.{WatchRegistry}

pub record TextSizingRequest (F : Type 0) : Type 0 where
  pub mode : Str
  pub size : F

pub record TimeState : Type 0 where
  pub start : ℕ
  pub frame : ℕ
  pub frame_start : ℕ
  pub dt : ℕ

unfoldable pub new_time : ℕ → TimeState
new_time now = record { start = now; frame = 0; frame_start = now; dt = 0 }

unfoldable pub tick : ℕ → TimeState → TimeState
tick now t = record t { frame = suc t.frame; frame_start = now; dt = now - t.frame_start }

-- What the script's thread holds of the HTTP bridge: the callbacks by their request's id, and the
-- responses that have arrived. `K` stands for a callback's key and `R` for a response.
pub record Http (K R : Type 0) : Type 0 where
  pub pending : Map K
  pub responses : List (ℕ × R)
  -- the counters of the bridge
  pub bridge : HttpBridge

-- `F` stands for `f32`, `D` for `f64` and `J` for a JSON value.
pub record World (F D J K R : Type 0) : Type 0 where
  pub registry : WatchRegistry
  -- the engine's snapshot, which it replaces between the calls of the script
  pub snapshot : Snapshot
  -- what `snes.write` has queued
  pub writes : List (MemRegion × List ℕ)
  pub console : Console
  pub draw : DrawList F
  pub current_font : Font
  pub requested_canvas : Canvas F
  pub requested_text_sizing : Option (TextSizingRequest F)
  pub origin_stack : List (F × F)
  pub path_builder : List (PathPrimitive F)
  pub time : TimeState
  pub mouse : MouseState F
  pub controls : Controls D
  pub store : Store J
  pub http : Option (Http K R)

-- A run's machine, its world and its error.
abbrev pub Ran : Type 0 → Type 0 → Type 0
Ran Vm W = Vm × W × Option Str

pub record Lua (W K R : Type 0) : Type 1 where
  pub Vm : Type 0
  -- `Lua::new()` with the tables of `install_api`, or the error of installing them
  pub installed : Vm × Option Str
  -- `load(src).set_name(name).exec()`
  pub exec : (src name : Str) → Vm → W → Ran Vm W
  -- a function among the globals
  pub function : Str → Vm → Option (Vm → W → Ran Vm W)
  -- a registered callback, if the machine has its key, and its call with a response's table
  pub callback : K → Vm → Option (R → Vm → W → Ran Vm W)

-- the pointer before the first reading
unfoldable pub no_mouse : (fl : Float) → MouseState fl.F
no_mouse fl = record {
  cur = record { pos = none; buttons = (false, false, false); wheel = fl.of_nat 0 };
  prev_buttons = (false, false, false);
}

unfoldable pub forget_callbacks : {K R : Type 0} → Option (Http K R) → Option (Http K R)
forget_callbacks none = none
forget_callbacks (some h) = some (record h { pending = Map.empty })

module _ (fl : Float) {D K R : Type 0} {J : Type 0} where
  -- the state that a frame's drawing starts from
  unfoldable pub reset_drawing : World fl.F D J K R → World fl.F D J K R
  reset_drawing w = record w {
    draw = record { cmds = [] };
    current_font = small;
    origin_stack = [];
    path_builder = [];
  }

  -- what `load_script` clears of the script before
  unfoldable pub cleared : ℕ → World fl.F D J K R → World fl.F D J K R
  unfolding reset_drawing native new_time no_mouse forget_callbacks Registry.clear
  cleared now w = record (reset_drawing w) {
    registry = Registry.clear w.registry;
    requested_canvas = native fl;
    requested_text_sizing = none;
    time = new_time now;
    mouse = no_mouse fl;
    controls = record { items = [] };
    http = forget_callbacks w.http;
  }

  abbrev pub log : Str → World fl.F D J K R → World fl.F D J K R
  log line w = record w { console = push line w.console }

module _ (fl : Float) {D : Type 0} {K R J : Type 0} (lua : Lua (World fl.F D J K R) K R) where
  pub record ScriptHost : Type 0 where
    pub vm : lua.Vm
    pub world : World fl.F D J K R
    pub loaded : Bool

  -- the handler of an error, which logs it under a label
  unfoldable pub logged : Str → Ran lua.Vm (World fl.F D J K R) → Ran lua.Vm (World fl.F D J K R)
  logged label (vm, w, none) = (vm, w, none)
  logged label (vm, w, some e) = (vm, log fl (label ++ e) w, some e)

  -- A function of the script is called if it is there; an error is logged under a label.
  unfoldable pub call_logged :
      Str → Str → lua.Vm → World fl.F D J K R → Ran lua.Vm (World fl.F D J K R)
  unfolding logged
  call_logged name label vm w = elim (lua.function name vm) [
    | none ↦ (vm, w, none)
    | some f ↦ logged label (f vm w)
  ]

  unfoldable pub fire_unload : ScriptHost → ScriptHost
  unfolding call_logged
  fire_unload h =
      if h.loaded
      then (let (vm, w, _) =
            call_logged (str "on_unload") (str "[on_unload error] ") h.vm h.world in
          record { vm = vm; world = w; loaded = false })
      else h

  -- the responses of one frame, each to its callback
  unfoldable pub deliver : List (ℕ × R) → lua.Vm → World fl.F D J K R → lua.Vm × World fl.F D J K R
  deliver [] vm w = (vm, w)
  deliver ((id, r) ∷ rest) vm w = elim w.http [
    | none ↦ (vm, w)
    | some h ↦ elim (Map.get id h.pending) [
      | none ↦ deliver rest vm w
      | some key ↦
          let taken = record w { http = some (record h { pending = Map.remove id h.pending }) } in
          elim (lua.callback key vm) [
            | none ↦ deliver rest vm taken
            | some f ↦
                let (vm', w', e) = f r vm taken in
                elim e [
                  | none ↦ deliver rest vm' w'
                  | some e ↦ deliver rest vm' (log fl (str "[http callback error] " ++ e) w')
                ]
          ]
    ]
  ]

  unfoldable pub pump_http : lua.Vm → World fl.F D J K R → lua.Vm × World fl.F D J K R
  unfolding deliver
  pump_http vm w = elim w.http [
    | none ↦ (vm, w)
    | some h ↦ deliver h.responses vm (record w { http = some (record h { responses = [] }) })
  ]

  -- the end of a frame: an error disables the script, and the renderer gets nothing
  unfoldable pub end_frame : Ran lua.Vm (World fl.F D J K R) → ScriptHost × DrawList fl.F
  end_frame (vm, w, none) = (record { vm = vm; world = w; loaded = true }, w.draw)
  end_frame (vm, w, some _) = (record { vm = vm; world = w; loaded = false }, record { cmds = [] })

  -- The host after the frame, and the list that the renderer gets. `begun` is when the frame begins.
  unfoldable pub run_frame : ℕ → ScriptHost → ScriptHost × DrawList fl.F
  unfolding tick reset_drawing pump_http call_logged end_frame
  run_frame begun h =
      if h.loaded
      then (let w = reset_drawing fl (record h.world { time = tick begun h.world.time }) in
          let (vm, w') = pump_http h.vm w in
          end_frame (call_logged (str "on_frame") (str "[on_frame error] ") vm w'))
      else (h, record { cmds = [] })

module _ (fl : Float) (d : Float) (js : Json d.F) {K R : Type 0}
    (lua : Lua (World fl.F d.F js.J K R) K R) where
  -- the end of a load, in which the panel's values are persisted
  unfoldable pub declared :
      Str → Ran lua.Vm (World fl.F d.F js.J K R) → Ran lua.Vm (World fl.F d.F js.J K R)
  unfolding persist_controls
  declared name (vm, w, some e) = (vm, w, some e)
  declared name (vm, w, none) = (
    vm,
    log fl (str "[loaded] " ++ name)
        (record w { store = persist_controls d js w.controls w.store }),
    none,
  )

  unfoldable pub after_chunk :
      Str → Ran lua.Vm (World fl.F d.F js.J K R) → Ran lua.Vm (World fl.F d.F js.J K R)
  unfolding declared call_logged
  after_chunk name (vm, w, some e) = (vm, w, some e)
  after_chunk name (vm, w, none) =
      declared name (call_logged fl lua (str "on_init") (str "[on_init error] ") vm w)

  -- the chunk and `on_init`
  unfoldable pub start :
      (src name : Str) → lua.Vm → World fl.F d.F js.J K R → Ran lua.Vm (World fl.F d.F js.J K R)
  unfolding logged after_chunk
  start src name vm w =
      after_chunk name (logged fl lua (str "[load error] ") (lua.exec src name vm w))

  -- the load from the cleared world on, into a new machine
  unfoldable pub load_cleared :
      (src name : Str) → World fl.F d.F js.J K R → ScriptHost fl lua × Option Str
  unfolding start
  load_cleared src name w =
      let (vm, e) = lua.installed in
      elim e [
        | some e ↦ (record { vm = vm; world = w; loaded = false }, some e)
        | none ↦
            let (vm', w', e) = start src name vm w in
            (record { vm = vm'; world = w'; loaded = elim e [ none ↦ true | some _ ↦ false ] }, e)
      ]

  -- The host after the load, and the error.
  unfoldable pub load_script :
      (src name : Str) → ℕ → ScriptHost fl lua → ScriptHost fl lua × Option Str
  unfolding fire_unload cleared load_cleared
  load_script src name now h = load_cleared src name (cleared fl now (fire_unload fl lua h).world)

  -- a new host on the engine's registry and snapshot; the error is that of `install_api`
  unfoldable pub build :
      ℕ → WatchRegistry → Snapshot → Option (Http K R) → ScriptHost fl lua × Option Str
  unfolding new_time no_mouse native Store.new
  build now registry snapshot http = (
    record {
      vm = lua.installed.0;
      world = record {
        registry = registry;
        snapshot = snapshot;
        writes = [];
        console = record { lines = [] };
        draw = record { cmds = [] };
        current_font = small;
        requested_canvas = native fl;
        requested_text_sizing = none;
        origin_stack = [];
        path_builder = [];
        time = new_time now;
        mouse = no_mouse fl;
        controls = record { items = [] };
        store = Store.new;
        http = http;
      };
      loaded = false;
    },
    lua.installed.1,
  )

  unfoldable pub bind_store :
      (Str → Parsed js.J) → Option Str → Option Str → ScriptHost fl lua → ScriptHost fl lua
  unfolding Store.bind Store.unbind
  bind_store parse content path h = record h {
    world = record h.world {
      store = elim path [
        | none ↦ Store.unbind h.world.store
        | some p ↦ Store.bind parse content p h.world.store
      ];
    };
  }

  unfoldable pub feed_mouse : MouseFrame fl.F → ScriptHost fl lua → ScriptHost fl lua
  unfolding feed
  feed_mouse f h = record h { world = record h.world { mouse = feed f h.world.mouse } }

  unfoldable pub set_canvas : Canvas fl.F → ScriptHost fl lua → ScriptHost fl lua
  set_canvas c h = record h { world = record h.world { requested_canvas = c } }
