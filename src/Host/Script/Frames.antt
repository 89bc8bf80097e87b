-- ===== src/Host/Script/Frames.antt =====
-- A frame starts from the same state of the drawing, whatever the frames before left.
use sni_lua.Common.Float.{Float}
use sni_lua.Common.{ℕ, ◌≡◌, refl, true, List}
use sni_lua.Host.Script.{World, Lua, ScriptHost, run_frame, reset_drawing}
use sni_lua.Render.Font.{Font}
use sni_lua.Render.{DrawList, PathPrimitive}

module _ (fl : Float) {D J K R : Type 0} (lua : Lua (World fl.F D J K R) K R) where
  -- The frame of a loaded script, its list and the host that it leaves, depends neither on the list,
  -- the typeface and the path of the frame before, nor on origins that it did not pop.
  pub run_frame-reset :
      (now : ℕ) (h : ScriptHost fl lua) (draw : DrawList fl.F) (font : Font)
      (origins : List (fl.F × fl.F)) (path : List (PathPrimitive fl.F))
      → h.loaded ≡ true
      → run_frame fl lua now (record h {
        world = record h.world {
          draw = draw;
          current_font = font;
          origin_stack = origins;
          path_builder = path;
        };
      })
        ≡ run_frame fl lua now h
  unfolding run_frame reset_drawing
  run_frame-reset now h draw font origins path e = rw e refl
