-- ===== src/App.antt =====
-- crates/sni-lua-app/src/main.rs: what the window does with the script host, the store and the
-- settings. The window itself is egui's. The file system's answers and the clock are arguments.
pub mod Crop
pub mod Switching
pub mod Exit
pub mod Pointer
use sni_lua.Client.{MemRegion, fxpak}
use sni_lua.Common.Float.{Float}
use sni_lua.Common.{
  ℕ, ◌*◌, Bool, true, false, not, ◌||◌, List, [], Option, none, some, if◌then◌else◌, ltb, min, max,
  Str, str, str_eq, ◌++◌, ◌==◌,
}
use sni_lua.Config.{Config}
use sni_lua.Controls.{Controls, is_empty}
use sni_lua.Engine.Budget.{PollConfig, default_config}
use sni_lua.Host.Script.{
  World, Lua, ScriptHost, bind_store, load_script, run_frame, feed_mouse, set_canvas, fire_unload,
  TextSizingRequest,
}
use sni_lua.Host.Values.{Json}
use sni_lua.Host.{MouseFrame}
use sni_lua.Render.{Canvas, native, scaled, DrawList}
use sni_lua.Render.Text.{TextSizing, game_scaled, fixed_screen}
use sni_lua.Runtime.Store.{Parsed, Doc, Store, flush_if_dirty}

pub data Tab : Type 0 where
  setup script output debug : Tab

abbrev pub is_script : Tab → Bool
is_script script = true
is_script _ = false

module _ (fl : Float) where
  abbrev pub clamp : fl.F → fl.F → fl.F → fl.F
  clamp lo hi x = if fl.gt lo x then lo else if fl.gt x hi then hi else x

  unfoldable pub text_sizing : Config fl.F → TextSizing fl.F
  unfolding str_eq
  text_sizing c =
      let s = clamp (fl.lit 1 10) (fl.of_nat 8) c.text_size in
      if str_eq c.text_sizing_mode (str "screen")
      then fixed_screen (fl.mul s (fl.of_nat 2))
      else game_scaled s

  -- an instant is in nanoseconds
  unfoldable pub poll_config : Config fl.F → PollConfig fl.F
  unfolding default_config
  poll_config c = record (default_config fl) {
    frame_budget_ms = max c.frame_budget_ms 1;
    demand_window = max c.demand_window_ms 50 * 1_000_000;
  }

  -- the size of the stream window, in pixels to a pixel of the canvas
  unfoldable pub stream_scale_for : Config fl.F → Canvas fl.F → ℕ
  stream_scale_for c canvas =
      let side = λ (budget : ℕ) (x : fl.F).
        min (fl.trunc (fl.floor (fl.div (fl.of_nat budget) (fl.max x (fl.of_nat 1)))))
          0xFFFF_FFFF in
      let fit = min (side 960 canvas.w) (side 900 canvas.h) in
      if c.stream_auto_scale then min (max fit 1) 8 else min (max c.stream_scale 1) 8

  -- the canvas that the settings force; `none` is the script's own
  unfoldable pub forced_canvas : Str → Option (Canvas fl.F)
  unfolding native scaled str_eq
  forced_canvas mode =
      if str_eq mode (str "native")
      then some (native fl)
      else if str_eq mode (str "2x")
      then some (scaled fl 2)
      else if str_eq mode (str "3x")
      then some (scaled fl 3)
      else if str_eq mode (str "4x")
      then some (scaled fl 4)
      else none

-- `from_hex` is `u32::from_str_radix` of the text without its prefixes `0x`
unfoldable pub parsed_probe_region : (Str → Option ℕ) → Str → ℕ → Option MemRegion
unfolding fxpak
parsed_probe_region from_hex addr size = elim (from_hex addr) [
  | none ↦ none
  | some a ↦ if size == 0 || ltb 4096 size then none else some (fxpak a size)
]

module _ (fl : Float) (d : Float) (js : Json d.F) {K R : Type 0}
    (lua : Lua (World fl.F d.F js.J K R) K R) where
  pub record App : Type 0 where
    pub host : ScriptHost fl lua
    pub config : Config fl.F
    pub draw_list : DrawList fl.F
    pub script_path : Str
    pub status : Str
    pub tab : Tab

  -- the settings after the load, with the text sizing that the script asked for
  unfoldable pub seeded_config : Config fl.F → Str → Option (TextSizingRequest fl.F) → Config fl.F
  seeded_config c path none = record c { last_script = some path }
  seeded_config c path (some req) = record c {
    last_script = some path;
    text_sizing_mode = req.mode;
    text_size = clamp fl (fl.lit 3 10) (fl.of_nat 4) req.size;
  }

  unfoldable pub loaded_tab : Tab → Bool → Tab
  loaded_tab tab no_controls =
      if not no_controls then script else if is_script tab then setup else tab

  -- the app after the load has ended
  unfoldable pub after_load : Str → App → ScriptHost fl lua × Option Str → App
  unfolding seeded_config loaded_tab is_empty
  after_load name a (host, some e) = record a { host = host; status = str "Script error: " ++ e }
  after_load name a (host, none) = record a {
    host = host;
    status = str "Loaded script: " ++ name;
    config = seeded_config a.config a.script_path host.world.requested_text_sizing;
    tab = loaded_tab a.tab (is_empty host.world.controls);
  }

  -- `source` is the script's text or the error of reading it, `store_path` the path of its store's
  -- file, and `content` what that file holds.
  unfoldable pub load_script_from_path :
      (Str → Parsed js.J)
      → (source : Option Str) → (error name : Str) → (store_path content : Option Str) → ℕ
      → App
      → App
  unfolding bind_store load_script after_load
  load_script_from_path parse none error name store_path content now a = record a {
    status = str "Cannot read " ++ a.script_path ++ str ": " ++ error;
  }
  load_script_from_path parse (some src) error name store_path content now a = after_load name a (
      load_script fl d js lua src name now (bind_store fl d js lua parse content store_path a.host))

  unfoldable pub apply_canvas : App → App
  unfolding forced_canvas set_canvas
  apply_canvas a = elim (forced_canvas fl a.config.canvas_mode) [
    | none ↦ a
    | some c ↦ record a { host = set_canvas fl d js lua c a.host }
  ]

  -- The store of the host after a flush, and what is to be written where.
  unfoldable pub flush_host :
      (Doc js.J → Option Str) → ScriptHost fl lua → ScriptHost fl lua × Option (Str × Str)
  unfolding flush_if_dirty
  flush_host print h =
      let (s, file) = flush_if_dirty print h.world.store in
      (record h { world = record h.world { store = s } }, file)

  -- the start of `update`: the canvas, the pointer, the script's frame and the flush
  unfoldable pub update :
      (Doc js.J → Option Str) → MouseFrame fl.F → ℕ → App → App × Option (Str × Str)
  unfolding apply_canvas feed_mouse run_frame flush_host
  update print pointer now a =
      let b = apply_canvas a in
      let (h, l) = run_frame fl lua now (feed_mouse fl d js lua pointer b.host) in
      let (h', file) = flush_host print h in (record b { host = h'; draw_list = l }, file)

  unfoldable pub on_exit : (Doc js.J → Option Str) → App → App × Option (Str × Str)
  unfolding fire_unload flush_host
  on_exit print a =
      let (h, file) = flush_host print (fire_unload fl lua a.host) in (record a { host = h }, file)
