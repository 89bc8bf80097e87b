-- ===== src/Lib.antt =====
-- sni-lua: Lua overlays for SNES games over SNI.
--
-- The program polls a console's memory over a slow link and gives scripts a snapshot to read. A
-- script's reads register watches in the registry (crates/sni-cache/src/watch.rs). The poll engine
-- (crates/sni-cache/src/engine.rs) takes the active watches in every cycle, merges them into reads
-- (`coalesce`), reads the realtime ones first, then splits and selects the others by a byte budget and
-- reads batch after batch until the frame is spent, slices the replies back to the watches, and
-- publishes a snapshot (crates/sni-cache/src/snapshot.rs). The actor
-- (crates/sni-lua-app/src/sni_actor.rs) owns the connection and hands the engine a client and a device
-- through a slot. Scripts also have a store and HTTP (crates/sni-lua-api/src/runtime.rs), a settings
-- panel (controls.rs beside it) and a draw list with bitmap fonts (crates/sni-render/src).
--
-- Files, by part:
--   Common            what the parts share: Boolean tests, lists, maps in key order, sets of ids,
--                     sorting, words of 32 and 64 bits, strings as byte lists, `f32` as an interface
--   Client            crates/sni-client/src/lib.rs; Client/Calls has its calls, Client/Devices is on the
--                     choice of a device, Client/Wire on the numbers of the wire
--   Watch             crates/sni-cache/src/watch.rs: Watch/Registry is `WatchRegistry`, one function
--                     for each method, and Watch/Coalesce is `coalesce` and `finish_run`
--   Snapshot          crates/sni-cache/src/snapshot.rs
--   Engine            crates/sni-cache/src/engine.rs: Split is `split_reads_to_budget`, Select is
--                     `select_bulk`, Pending has `read_is_pending`, `mark_fulfilled`, `mark_done` and
--                     `pending_summary`, Apply is `apply_reads`, Budget has the budget's functions,
--                     Drain is the inner loop of `spawn` and Cycle the outer loop's body
--   Actor             crates/sni-lua-app/src/sni_actor.rs, one function for each method
--   Runtime           crates/sni-lua-api/src/runtime.rs: Store, and Http for the cap of `HttpBridge`
--   Controls          crates/sni-lua-api/src/controls.rs
--   Render            crates/sni-render/src/lib.rs, Render/Font for font.rs, and Render/Text for the
--                     viewport and `paint_text` of paint.rs; Render/Paint has the other commands,
--                     Paint/Polygons the polygons, Paint/Bounded is on what painting fails of
--                     and Paint/Drawn on what it draws
--   Host              crates/sni-lua-api/src/lib.rs: `Console` and `MouseState`; Calls has the
--                     memory calls that `install_api` binds; Host/Lines is on the
--                     console's limit, Host/Writes on what a write sends, Host/Polled on what
--                     a script's reads make the engine poll
--   Host/Panel        the `ui` table of `install_api` and `persist_controls`; Calls has a panel's
--                     declarations as data, Widgets is the script tab of
--                     crates/sni-lua-app/src/main.rs, Session runs both in any order
--   Host/Gfx          the `gfx` table: State is what its calls share, Draws has one function for
--                     each call, Table has the calls as data, Colors and Metrics the pure ones;
--                     Host/Options has `parse_text_opts` and the other option tables
--   Host/Json         `lua_to_json` and `json_to_lua`; Host/Saves has the `store` table
--   Host/Script       `ScriptHost`: `load_script`, `run_frame`, `fire_unload`, `pump_http`
--   Host/Requests     the `http` table's request; Late is on responses and their callbacks
--   Host/Logging      `print` and the `log` table
--   Capture           crates/sni-capture/src/lib.rs: `choose_format`, the thread's frames; Texture is
--                     `capture_texture` of crates/sni-lua-app/src/main.rs
--   Config            crates/sni-lua-app/src/config.rs
--   App               crates/sni-lua-app/src/main.rs: what the window does with the host, the store
--                     and the settings; Crop is `capture_uv_rect`, Pointer `feed_mouse`
--   Tests             runs at concrete inputs
--
-- State is passed explicitly. A field called `data` in the source has another name here (`bytes_of`,
-- `doc`). Unsigned words are natural numbers; sums of addresses and sizes wrap at 2 ^ 32 as in a
-- release build, so the theorems on regions ask that a region ends below 2 ^ 32. Counters of cycles
-- and of batches do not wrap here. A clock is an argument wherever the code reads it. `f32::clamp`
-- and `u32::clamp` panic when their bounds are crossed; the theorem on the budget asks that they are
-- not.
--
-- The drain loop runs on fuel, one unit for a turn: each turn that goes on services a requested
-- watch that was not done, so the number of those and one more is enough. What one turn meets (the
-- clock, the service's answer) is a `Round`; the loop takes a sequence of them. A console's memory may
-- differ from turn to turn.
--
-- A script runs in a Lua machine that is an interface (`Lua`): running a chunk, a function or a
-- callback gives the machine and the world it leaves and its error, if any; the world is what the
-- functions of `install_api` share with the script: the registry, the engine's snapshot, which stands
-- still while the script runs, the writes queued, the console, the store, the drawing, the panel and
-- the HTTP bridge. A table of options is an interface as well
-- (`Tables`), and so are JSON (`Json`, with `Reads` for what reading a written value back gives) and
-- the conversions of numbers (`Numbers`). `f64::clamp` panics when its bounds are in no order; the
-- panel's operations give `none` then.
--
-- Not modelled: the gRPC and HTTP transports, `serde_json`, file system calls, mlua, egui and the
-- camera, which the sources only call; what the modelled code uses of them is an argument, or a named
-- hypothesis (`Answers`: a batch is answered with the memory of the moment or an error;
-- `StaysInBounds`: a dragged slider is kept between its bounds; `IsOrdered`: the tests of IEEE 754;
-- `IsExact`: `f32` is exact on small whole numbers; `HasHalves`: half the shorter side is a number
-- unless both sides are NaN; `IsBorder`: a table's length is a border; `AreSeparators`: a path's
-- separators are among three characters). LuaJIT's numbers are doubles, and mlua reads a whole one as an
-- integer, by `as_int`. A Lua table is a finite tree of entries, which `pairs` gives in an order of its
-- own; a `serde_json::Map` is a list whose keys ascend.
-- The layout of the window is not modelled either. Trigonometry (`Plane`) and `geo`'s triangulation
-- and union of polygons (`Geo`) are interfaces of the painter. The `anim` and `http` preludes are
-- Lua.
pub mod Common
pub mod Client
pub mod Watch
pub mod Snapshot
pub mod Engine
pub mod Actor
pub mod Runtime
pub mod Controls
pub mod Config
pub mod App
pub mod Capture
pub mod Host
pub mod Render
pub mod Tests
