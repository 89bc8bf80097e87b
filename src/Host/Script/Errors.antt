-- ===== src/Host/Script/Errors.antt =====
-- What an error of the script does to the host.
use sni_lua.Common.Float.{Float}
use sni_lua.Common.{
  ℕ, ◌≡◌, refl, sym, ap, ◌∙◌, true, false, List, [], ◌∷◌, ◌++◌, Option, none, some, Str, str, map,
  ◌⊎◌, inl, inr,
}
use sni_lua.Host.Script.{
  World, Lua, Ran, ScriptHost, run_frame, reset_drawing, pump_http, call_logged, logged, end_frame,
  tick, log, fire_unload, declared, after_chunk, load_script, load_cleared, start, cleared,
}
use sni_lua.Host.Values.{Json}
use sni_lua.Host.Panel.{persist_controls}
use sni_lua.Render.{DrawList}

module _ (fl : Float) {D J K R : Type 0} (lua : Lua (World fl.F D J K R) K R) where
  -- frames at some instants, and what the renderer gets of each
  unfoldable pub run_frames : List ℕ → ScriptHost fl lua → ScriptHost fl lua × List (DrawList fl.F)
  unfolding run_frame
  run_frames [] h = (h, [])
  run_frames (t ∷ ts) h =
      let (h', l) = run_frame fl lua t h in let (h'', ls) = run_frames ts h' in (h'', l ∷ ls)

  abbrev pub blank : DrawList fl.F
  blank = record { cmds = [] }

  run_frame-idle :
      (t : ℕ) (h : ScriptHost fl lua) → h.loaded ≡ false → run_frame fl lua t h ≡ (h, blank)
  unfolding run_frame
  run_frame-idle t h e = rw e refl

  run_frames-first :
      (t : ℕ) (ts : List ℕ) (h h' : ScriptHost fl lua)
      → run_frame fl lua t h ≡ (h', blank)
      → run_frames (t ∷ ts) h ≡ ((run_frames ts h').0, blank ∷ (run_frames ts h').1)
  unfolding run_frames
  run_frames-first t ts h h' p = λ i. (let q = run_frames ts (p i).0 in (q.0, (p i).1 ∷ q.1))

  run_frames-idle :
      (ts : List ℕ) (h : ScriptHost fl lua)
      → h.loaded ≡ false
      → run_frames ts h ≡ (h, map (λ t. blank) ts)
  unfolding run_frames
  run_frames-idle [] h e = refl
  run_frames-idle (t ∷ ts) h e =
      run_frames-first t ts h h (run_frame-idle t h e)
      ∙ (λ i. (let q = run_frames-idle ts h e i in (q.0, blank ∷ q.1)))

  -- the world in which `on_frame` is called, and the machine
  abbrev pub framed : ℕ → ScriptHost fl lua → lua.Vm × World fl.F D J K R
  framed t h =
      pump_http fl lua h.vm (reset_drawing fl (record h.world { time = tick t h.world.time }))

  call_logged-error :
      (name label : Str) (vm vm' : lua.Vm) (w w' : World fl.F D J K R) (e : Str)
      (f : lua.Vm → World fl.F D J K R → Ran lua.Vm (World fl.F D J K R))
      → lua.function name vm ≡ some f
      → f vm w ≡ (vm', w', some e)
      → call_logged fl lua name label vm w ≡ (vm', log fl (label ++ e) w', some e)
  unfolding call_logged logged
  call_logged-error name label vm vm' w w' e f found raised =
      rw (found, call_logged) (ap (logged fl lua label) raised)

  run_frame-error :
      (t : ℕ) (h stopped : ScriptHost fl lua) (e : Str)
      → h.loaded ≡ true
      → stopped.loaded ≡ false
      → call_logged fl lua (str "on_frame") (str "[on_frame error] ") (framed t h).0 (framed t h).1
        ≡ (stopped.vm, stopped.world, some e)
      → run_frame fl lua t h ≡ (stopped, blank)
  unfolding run_frame end_frame
  run_frame-error t h stopped e loaded idle called =
      rw loaded
        (ap (end_frame fl lua) called ∙ (λ i. (record stopped { loaded = sym idle i }, blank)))

  -- If `on_frame` raises an error, then that frame and all later ones give the renderer nothing, the
  -- error is logged once, and the host stays as that frame left it: the script is not called again,
  -- neither for a frame nor for an unload.
  pub run_frames-error :
      (t : ℕ) (ts : List ℕ) (h : ScriptHost fl lua)
      (f : lua.Vm → World fl.F D J K R → Ran lua.Vm (World fl.F D J K R)) (vm : lua.Vm)
      (w : World fl.F D J K R) (e : Str)
      → h.loaded ≡ true
      → lua.function (str "on_frame") (framed t h).0 ≡ some f
      → f (framed t h).0 (framed t h).1 ≡ (vm, w, some e)
      → let stopped : ScriptHost fl lua = record {
        vm = vm;
        world = log fl (str "[on_frame error] " ++ e) w;
        loaded = false;
      } in
        (run_frames (t ∷ ts) h ≡ (stopped, map (λ t. blank) (t ∷ ts)))
        × (fire_unload fl lua stopped ≡ stopped)
  unfolding run_frames fire_unload
  run_frames-error t ts h f vm w e loaded found raised =
      let stopped : ScriptHost fl lua = record {
        vm = vm;
        world = log fl (str "[on_frame error] " ++ e) w;
        loaded = false;
      } in
      (
        run_frames-first t ts h stopped (
              run_frame-error t h stopped e loaded refl (
                call_logged-error (str "on_frame") (str "[on_frame error] ") (framed t h).0 vm
                  (framed t h).1 w e f found raised))
            ∙ (λ i. (let q = run_frames-idle ts stopped refl i in (q.0, blank ∷ q.1))),
        refl,
      )

module _ (fl : Float) (d : Float) (js : Json d.F) {K R : Type 0}
    (lua : Lua (World fl.F d.F js.J K R) K R) where
  -- `on_init`, after the chunk, is not there, or leaves this machine and this world without an error
  abbrev pub Initialised :
      Ran lua.Vm (World fl.F d.F js.J K R) → lua.Vm → World fl.F d.F js.J K R → Type 0
  Initialised (vm, w, _) vm' w' =
      ((lua.function (str "on_init") vm ≡ none) × (vm' ≡ vm) × (w' ≡ w))
      ⊎ ((f : lua.Vm → World fl.F d.F js.J K R → Ran lua.Vm (World fl.F d.F js.J K R))
          × (lua.function (str "on_init") vm ≡ some f)
          × (f vm w ≡ (vm', w', none)))

  -- How a load ends, told by the run of the chunk and the call of `on_init`: the host, and the error
  -- that the load gives.
  pub data Outcome (name : Str) (chunk : Ran lua.Vm (World fl.F d.F js.J K R))
      (x : ScriptHost fl lua × Option Str) : Type 0 where
    chunk_failed :
        (e : Str)
        → chunk.2 ≡ some e
        → x ≡ (
          record {
            vm = chunk.0;
            world = log fl (str "[load error] " ++ e) chunk.1;
            loaded = false;
          },
          some e,
        )
        → Outcome name chunk x
    init_failed :
        (f : lua.Vm → World fl.F d.F js.J K R → Ran lua.Vm (World fl.F d.F js.J K R)) (vm : lua.Vm)
        (w : World fl.F d.F js.J K R) (e : Str)
        → chunk.2 ≡ none
        → lua.function (str "on_init") chunk.0 ≡ some f
        → f chunk.0 chunk.1 ≡ (vm, w, some e)
        → x ≡ (
          record { vm = vm; world = log fl (str "[on_init error] " ++ e) w; loaded = false },
          some e,
        )
        → Outcome name chunk x
    succeeded :
        (vm : lua.Vm) (w : World fl.F d.F js.J K R)
        → chunk.2 ≡ none
        → Initialised chunk vm w
        → x ≡ (
          record {
            vm = vm;
            world =
                log fl
                  (str "[loaded] " ++ name)
                  (record w { store = persist_controls d js w.controls w.store });
            loaded = true;
          },
          none,
        )
        → Outcome name chunk x

  -- what `load_script` makes of a run
  abbrev closed : Ran lua.Vm (World fl.F d.F js.J K R) → ScriptHost fl lua × Option Str
  closed (vm, w, e) =
      (record { vm = vm; world = w; loaded = elim e [ none ↦ true | some _ ↦ false ] }, e)

  init-Outcome :
      (name : Str) (vm : lua.Vm) (w : World fl.F d.F js.J K R)
      (f : lua.Vm → World fl.F d.F js.J K R → Ran lua.Vm (World fl.F d.F js.J K R))
      (t : Ran lua.Vm (World fl.F d.F js.J K R))
      → lua.function (str "on_init") vm ≡ some f
      → f vm w ≡ t
      → Outcome name
          (vm, w, none)
          (closed (declared fl d js lua name (logged fl lua (str "[on_init error] ") t)))
  unfolding declared logged
  init-Outcome name vm w f (vm', w', none) found e = succeeded vm' w' refl (inr (f, found, e)) refl
  init-Outcome name vm w f (vm', w', some x) found e = init_failed f vm' w' x refl found e refl

  call-Outcome :
      (name : Str) (vm : lua.Vm) (w : World fl.F d.F js.J K R)
      (o : Option (lua.Vm → World fl.F d.F js.J K R → Ran lua.Vm (World fl.F d.F js.J K R)))
      → lua.function (str "on_init") vm ≡ o
      → Outcome name
          (vm, w, none)
          (closed (
            declared fl d js lua name (elim o [
              | none ↦ (vm, w, none)
              | some f ↦ logged fl lua (str "[on_init error] ") (f vm w)
            ])))
  unfolding declared
  call-Outcome name vm w none found = succeeded vm w refl (inl (found, refl, refl)) refl
  call-Outcome name vm w (some f) found = init-Outcome name vm w f (f vm w) found refl

  chunk-Outcome :
      (name : Str) (r : Ran lua.Vm (World fl.F d.F js.J K R))
      → Outcome name r
          (closed (after_chunk fl d js lua name (logged fl lua (str "[load error] ") r)))
  unfolding after_chunk logged call_logged
  chunk-Outcome name (vm, w, none) = call-Outcome name vm w (lua.function (str "on_init") vm) refl
  chunk-Outcome name (vm, w, some e) = chunk_failed e refl refl

  -- A load, with Lua's tables installed, ends in one of three ways. If the chunk raises an error, the
  -- load gives that error, the script is not loaded, `on_init` is not called, and the one line logged is
  -- the error under `[load error] `. If the chunk ends and `on_init` raises an error, the load gives
  -- that, the script is not loaded, and the line is under `[on_init error] `. If neither does, the
  -- script is loaded, its panel is persisted, and the line tells its name.
  pub load_script-Outcome :
      (src name : Str) (now : ℕ) (h : ScriptHost fl lua)
      → lua.installed.1 ≡ none
      → Outcome name
          (lua.exec src name lua.installed.0 (cleared fl now (fire_unload fl lua h).world))
          (load_script fl d js lua src name now h)
  unfolding load_script load_cleared start
  load_script-Outcome src name now h i =
      rw (i, load_cleared)
        (chunk-Outcome name
          (lua.exec src name lua.installed.0 (cleared fl now (fire_unload fl lua h).world)))
