-- ===== src/App/Exit.antt =====
-- The app's exit: `on_unload` runs once more and the store is flushed.
use sni_lua.App.{App, on_exit, flush_host}
use sni_lua.Common.Float.{Float}
use sni_lua.Common.{◌≡◌, ap, sym, ◌∙◌, true, false, Option, some, Str}
use sni_lua.Host.Script.{World, Lua, ScriptHost, fire_unload, bind_store}
use sni_lua.Host.Script.Reloading.{fire_unload-loaded}
use sni_lua.Host.Values.{Json}
use sni_lua.Runtime.Store.{Doc, Store, Parsed, flush_if_dirty}
use sni_lua.Runtime.Store as Store

module _ (fl : Float) (d : Float) (js : Json d.F) {K R : Type 0}
    (lua : Lua (World fl.F d.F js.J K R) K R) where
  flush_if_dirty-saves :
      (print : Doc js.J → Option Str) (path text : Str) (s : Store js.J)
      → s.dirty ≡ true
      → s.path ≡ some path
      → print s.doc ≡ some text
      → flush_if_dirty print s ≡ (record s { dirty = false }, some (path, text))
  unfolding flush_if_dirty
  flush_if_dirty-saves print path text s e p t =
      rw (e, p, t) (λ i. (record s { path = p i; dirty = false }, some (path, text)))

  bind-reads :
      (parse : Str → Parsed js.J) (path text : Str) (s now : Store js.J)
      → s.path ≡ some path
      → parse text ≡ Parsed.object s.doc
      → Store.bind parse (some text) path now ≡ record s { dirty = false }
  unfolding Store.bind Store.loaded
  bind-reads parse path text s now p q =
      rw (q, Store.loaded) (λ i. record s { path = sym p i; dirty = false })

  -- Whatever the script's `on_unload` does: if it leaves the store with a change that is not flushed,
  -- before or by `on_unload`, if the store is bound to a file, and if its document prints to a text that
  -- parses to it, then at the exit the script is no longer loaded, the file is written, the store is
  -- clean with its document as it was, and the next run, whose host binds its store to this file,
  -- starts from the document that the script left.
  pub on_exit-restored :
      (print : Doc js.J → Option Str) (parse : Str → Parsed js.J) (path text : Str)
      (a : App fl d js lua) (next : ScriptHost fl lua)
      → let s = (fire_unload fl lua a.host).world.store in
        s.dirty ≡ true
        → s.path ≡ some path
        → print s.doc ≡ some text
        → parse text ≡ Parsed.object s.doc
        → ((on_exit fl d js lua print a).0.host.loaded ≡ false)
          × ((on_exit fl d js lua print a).1 ≡ some (path, text))
          × ((on_exit fl d js lua print a).0.host.world.store ≡ record s { dirty = false })
          × ((bind_store fl d js lua parse (some text) (some path) next).world.store
              ≡ (on_exit fl d js lua print a).0.host.world.store)
  unfolding on_exit flush_host bind_store
  on_exit-restored print parse path text a next e p t q =
      let s = (fire_unload fl lua a.host).world.store in
      let saves = flush_if_dirty-saves print path text s e p t in
      (
        fire_unload-loaded fl d js lua a.host,
        ap (λ r. r.1) saves,
        ap (λ r. r.0) saves,
        bind-reads parse path text s next.world.store p q ∙ sym (ap (λ r. r.0) saves),
      )
