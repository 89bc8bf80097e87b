-- ===== src/App/Switching.antt =====
-- `load_script_from_path` binds the store to the new script's file before `load_script` calls the
-- old script's `on_unload`.
use sni_lua.App.{App}
use sni_lua.Common.Float.{Float}
use sni_lua.Common.{Str}
use sni_lua.Host.Script.{World, Lua}
use sni_lua.Host.Values.{Json}
use sni_lua.Runtime.Store.{Store}
use sni_lua.Runtime.Store as Store

module _ (fl : Float) (d : Float) (js : Json d.F) {K R : Type 0}
    (lua : Lua (World fl.F d.F js.J K R) K R) where
  -- the world in which a script has set a key of its store
  abbrev pub saved : Str → js.J → World fl.F d.F js.J K R → World fl.F d.F js.J K R
  saved key v w = record w { store = Store.set key v w.store }
