-- ===== src/Render.antt =====
-- crates/sni-render/src/lib.rs: colors, the canvas, and the list of drawing commands.
pub mod Font
pub mod Paint
pub mod Text
use sni_lua.Common.Float.{Float}
use sni_lua.Render.Font.{Font as Typeface}
use sni_lua.Common.{
  ℕ, ◌/◌, ◌%◌, ◌^◌, Bool, List, [], ◌∷◌, ◌++◌, Option, min, max, Str, if◌then◌else◌,
}

pub data TextAlign : Type 0 where
  left center right : TextAlign

pub data TextVAlign : Type 0 where
  top middle bottom : TextVAlign

pub record Color : Type 0 where
  pub r : ℕ
  pub g : ℕ
  pub b : ℕ
  pub a : ℕ

-- `as u8`
abbrev pub as_u8 : ℕ → ℕ
as_u8 n = n % 256

unfoldable pub rgba : ℕ → ℕ → ℕ → ℕ → Color
rgba r g b a = record { r = r; g = g; b = b; a = a }

unfoldable pub from_argb : ℕ → Color
from_argb argb = record {
  a = as_u8 (argb / 2 ^ 24);
  r = as_u8 (argb / 2 ^ 16);
  g = as_u8 (argb / 2 ^ 8);
  b = as_u8 argb;
}

abbrev pub snes_w : ℕ
snes_w = 256

abbrev pub snes_h : ℕ
snes_h = 224

-- `F` stands for `f32`
pub record Canvas (F : Type 0) : Type 0 where
  pub w : F
  pub h : F

module _ (fl : Float) where
  unfoldable pub native : Canvas fl.F
  native = record { w = fl.of_nat snes_w; h = fl.of_nat snes_h }

  unfoldable pub scaled : ℕ → Canvas fl.F
  scaled n =
      let k = fl.of_nat (min (max n 1) 8) in
      record { w = fl.mul (fl.of_nat snes_w) k; h = fl.mul (fl.of_nat snes_h) k }

  -- `f32::clamp` from 16 to 4096; `NaN` stays
  abbrev pub clamp_side : fl.F → fl.F
  clamp_side x =
      if fl.gt (fl.of_nat 16) x
      then fl.of_nat 16
      else if fl.gt x (fl.of_nat 4096)
      then fl.of_nat 4096
      else x

  unfoldable pub custom : fl.F → fl.F → Canvas fl.F
  custom w h = record { w = clamp_side w; h = clamp_side h }

  unfoldable pub snes_ratio : Canvas fl.F → fl.F
  snes_ratio c = fl.div (fl.of_nat snes_w) c.w

pub record ShadowSpec (F : Type 0) : Type 0 where
  pub dx : F
  pub dy : F
  pub blur : F
  pub spread : F
  pub color : Color

pub data PathPrimitive (F : Type 0) : Type 0 where
  path_rect : (x y w h : F) → PathPrimitive F
  path_round_rect : (x y w h radius : F) → PathPrimitive F
  path_circle : (x y radius : F) → PathPrimitive F

pub data DrawCmd (F : Type 0) : Type 0 where
  text :
      (x y : F) (text : Str) (color : Color) (scale : F) (font : Typeface)
      (bg outline : Option Color) (align : TextAlign) (valign : TextVAlign)
      → DrawCmd F
  rect :
      (x y w h : F) (color : Color) (fill : Option Color) (thickness : F)
      (shadow : Option (ShadowSpec F))
      → DrawCmd F
  round_rect :
      (x y w h radius : F) (color : Color) (fill : Option Color) (thickness : F)
      (shadow : Option (ShadowSpec F))
      → DrawCmd F
  line : (x1 y1 x2 y2 : F) (color : Color) (thickness : F) → DrawCmd F
  pixel : (x y : F) (color : Color) → DrawCmd F
  circle : (x y radius : F) (color : Color) (fill : Option Color) (thickness : F) → DrawCmd F
  triangle :
      (x1 y1 x2 y2 x3 y3 : F) (color : Color) (fill : Option Color) (thickness : F) → DrawCmd F
  poly :
      (points : List (F × F)) (closed : Bool) (color : Color) (fill : Option Color) (thickness : F)
      → DrawCmd F
  gradient_line : (x1 y1 x2 y2 : F) (start end : Color) (thickness : F) → DrawCmd F
  gradient_rect :
      (x y w h radius : F) (start end : Color) (vertical : Bool) (shadow : Option (ShadowSpec F))
      → DrawCmd F
  path : (shapes : List (PathPrimitive F)) (color fill : Option Color) (thickness : F) → DrawCmd F
  arc :
      (x y radius start_deg end_deg : F) (color : Color) (fill : Option Color) (thickness : F)
      → DrawCmd F

pub record DrawList (F : Type 0) : Type 0 where
  pub cmds : List (DrawCmd F)

unfoldable pub clear : {F : Type 0} → DrawList F → DrawList F
clear l = record { cmds = [] }

-- a `Vec` grows at its end
unfoldable pub push : {F : Type 0} → DrawList F → DrawCmd F → DrawList F
push l cmd = record { cmds = l.cmds ++ cmd ∷ [] }
