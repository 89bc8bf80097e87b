-- ===== src/Host/Gfx/State.antt =====
-- The state that the calls of the `gfx` table share, and the parts of the calls.
use sni_lua.Common.Float.{Float}
use sni_lua.Common.{
  not, ◌||◌, List, [], ◌∷◌, ◌++◌, Option, none, some, if◌then◌else◌, Str, str, str_eq,
}
use sni_lua.Host.Options.{or_else}
use sni_lua.Host.Script.{TextSizingRequest}
use sni_lua.Render.Font.{Font}
use sni_lua.Render.{Canvas, Color, DrawCmd, DrawList, push, path, PathPrimitive}

-- what the calls share of the host's state; the top of the stack stands first
pub record Gfx (F : Type 0) : Type 0 where
  pub draw : DrawList F
  pub current_font : Font
  pub origin_stack : List (F × F)
  pub path_builder : List (PathPrimitive F)
  pub requested_canvas : Canvas F
  pub requested_text_sizing : Option (TextSizingRequest F)

module _ (fl : Float) where
  unfoldable pub offset : Gfx fl.F → fl.F × fl.F
  offset g = elim g.origin_stack [ [] ↦ (fl.of_nat 0, fl.of_nat 0) | o ∷ os ↦ o ]

  abbrev pub emit : DrawCmd fl.F → Gfx fl.F → Gfx fl.F
  emit c g = record g { draw = push g.draw c }

  abbrev pub add_shape : PathPrimitive fl.F → Gfx fl.F → Gfx fl.F
  add_shape p g = record g { path_builder = g.path_builder ++ p ∷ [] }

  unfoldable pub origin_pushed : fl.F × fl.F → fl.F → fl.F → Gfx fl.F → Gfx fl.F
  origin_pushed o x y g = record g { origin_stack = (fl.add o.0 x, fl.add o.1 y) ∷ g.origin_stack }

  unfoldable pub origin_popped : Gfx fl.F → Gfx fl.F
  origin_popped g = record g { origin_stack = elim g.origin_stack [ [] ↦ [] | o ∷ os ↦ os ] }

  unfoldable pub sizing_mode : Str → Option Str
  unfolding str_eq
  sizing_mode mode =
      if str_eq mode (str "game")
        || (str_eq mode (str "game_scaled")
            || (str_eq mode (str "game-scaled") || str_eq mode (str "scaled")))
      then some (str "game")
      else if str_eq mode (str "screen")
          || (str_eq mode (str "fixed")
              || (str_eq mode (str "fixed_screen") || str_eq mode (str "fixed-screen")))
      then some (str "screen")
      else none

  -- `f32::clamp` from 0.1 to 8
  abbrev pub clamp_size : fl.F → fl.F
  clamp_size x =
      if fl.gt (fl.lit 1 10) x
      then fl.lit 1 10
      else if fl.gt x (fl.of_nat 8)
      then fl.of_nat 8
      else x

  -- `size <= 0.0` is `0.0 > size` or an equality
  unfoldable pub text_sizing : Str → fl.F → Option (TextSizingRequest fl.F)
  unfolding sizing_mode
  text_sizing mode size =
      if not (fl.is_finite size) || (fl.gt (fl.of_nat 0) size || fl.eq size (fl.of_nat 0))
      then none
      else elim (sizing_mode mode) [
        | none ↦ none
        | some m ↦ some (record { mode = m; size = clamp_size size })
      ]

  -- the points, each moved by the offset; `none` once one of them is not a point
  unfoldable pub read_points :
      fl.F × fl.F → List (Option (fl.F × fl.F)) → Option (List (fl.F × fl.F))
  read_points o [] = some []
  read_points o (none ∷ ps) = none
  read_points o (some p ∷ ps) = elim (read_points o ps) [
    | none ↦ none
    | some qs ↦ some ((fl.add p.0 o.0, fl.add p.1 o.1) ∷ qs)
  ]

  -- a path without a shape is not drawn
  unfoldable pub path_drawn : (color fill : Option Color) → Option fl.F → Gfx fl.F → Gfx fl.F
  path_drawn color fill thickness g = elim g.path_builder [
    | [] ↦ g
    | p ∷ ps ↦ emit (path (p ∷ ps) color fill (or_else (fl.of_nat 1) thickness)) g
  ]
