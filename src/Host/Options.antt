-- ===== src/Host/Options.antt =====
-- The option tables of the `gfx` calls. A table's fields are read by mlua's conversions, which are an
-- interface: `none` is the `Err` of a `get` at a type.
use sni_lua.Common.Float.{Float}
use sni_lua.Common.{ℕ, Bool, true, false, ◌||◌, Option, none, some, if◌then◌else◌, Str, str, str_eq}
use sni_lua.Host.{parse_text_align, parse_text_valign}
use sni_lua.Render.{Color, from_argb, ShadowSpec, TextAlign, left, TextVAlign, top}

-- The values that an option can be. `F` stands for `f32`, `T` for a table.
pub data OptValue (F T : Type 0) : Type 0 where
  nil : OptValue F T
  boolean : Bool → OptValue F T
  -- an integer or a number, `as f32`
  number : F → OptValue F T
  table : T → OptValue F T
  other : OptValue F T

pub record Tables (F : Type 0) : Type 1 where
  pub T : Type 0
  pub get_f32 : T → Str → Option F
  pub get_u32 : T → Str → Option ℕ
  pub get_bool : T → Str → Option Bool
  pub get_string : T → Str → Option Str
  pub get_value : T → Str → Option (OptValue F T)

abbrev pub or_else : {A : Type 0} → A → Option A → A
or_else a none = a
or_else a (some b) = b

unfoldable pub argb : Option ℕ → ℕ → Color
unfolding from_argb
argb none default = from_argb default
argb (some c) default = from_argb c

unfoldable pub color_of : Option ℕ → Option Color
unfolding from_argb
color_of none = none
color_of (some c) = some (from_argb c)

pub record TextOpts (F : Type 0) : Type 0 where
  pub scale : F
  pub bg : Option Color
  pub outline : Option Color
  pub align : TextAlign
  pub valign : TextVAlign

pub record LuaShadow (F : Type 0) : Type 0 where
  pub dx : F
  pub dy : F
  pub blur : F
  pub spread : F
  pub color : Option ℕ

pub record GradientRectOpts (F : Type 0) : Type 0 where
  pub vertical : Bool
  pub radius : F
  pub shadow : Option (LuaShadow F)

module _ (fl : Float) where
  abbrev pub zero_f : fl.F
  zero_f = fl.of_nat 0

  unfoldable pub default_text : TextOpts fl.F
  default_text = record {
    scale = fl.of_nat 1;
    bg = none;
    outline = none;
    align = left;
    valign = top;
  }

  unfoldable pub no_shadow : LuaShadow fl.F
  no_shadow = record { dx = zero_f; dy = zero_f; blur = zero_f; spread = zero_f; color = none }

  unfoldable pub default_gradient : GradientRectOpts fl.F
  default_gradient = record { vertical = false; radius = zero_f; shadow = none }

  unfoldable pub resolve_shadow : Option (LuaShadow fl.F) → Color → Option (ShadowSpec fl.F)
  unfolding color_of
  resolve_shadow none fallback = none
  resolve_shadow (some s) fallback = some (record {
    dx = s.dx;
    dy = s.dy;
    blur = fl.max s.blur zero_f;
    spread = s.spread;
    color = or_else fallback (color_of s.color);
  })

  module _ (tb : Tables fl.F) where
    -- `none` is an error
    unfoldable pub text_align_of : tb.T → Option TextAlign
    unfolding parse_text_align
    text_align_of t = elim (tb.get_string t (str "align")) [
      | none ↦ some left
      | some name ↦ parse_text_align name
    ]

    unfoldable pub text_valign_of : tb.T → Option TextVAlign
    unfolding parse_text_valign
    text_valign_of t = elim (tb.get_string t (str "valign")) [
      | none ↦ some top
      | some name ↦ parse_text_valign name
    ]

    unfoldable pub scale_of : tb.T → fl.F
    scale_of t = elim (tb.get_f32 t (str "scale")) [
      | none ↦ fl.of_nat 1
      | some s ↦ if fl.gt s zero_f then s else fl.of_nat 1
    ]

    unfoldable pub text_opts_of : tb.T → Option (TextOpts fl.F)
    unfolding text_align_of text_valign_of scale_of color_of
    text_opts_of t = elim (text_align_of t) [
      | none ↦ none
      | some h ↦ elim (text_valign_of t) [
        | none ↦ none
        | some v ↦ some (record {
          scale = scale_of t;
          bg = color_of (tb.get_u32 t (str "bg"));
          outline = color_of (tb.get_u32 t (str "outline"));
          align = h;
          valign = v;
        })
      ]
    ]

    unfoldable pub parse_text_opts : Option (OptValue fl.F tb.T) → Option (TextOpts fl.F)
    unfolding text_opts_of default_text
    parse_text_opts (some (number n)) = some (record default_text { scale = n })
    parse_text_opts (some (table t)) = text_opts_of t
    parse_text_opts _ = some default_text

    unfoldable pub shadow_of : tb.T → LuaShadow fl.F
    unfolding no_shadow
    shadow_of t = record {
      dx = or_else zero_f (tb.get_f32 t (str "dx"));
      dy = or_else zero_f (tb.get_f32 t (str "dy"));
      blur = elim (tb.get_f32 t (str "blur")) [ none ↦ zero_f | some v ↦ fl.max v zero_f ];
      spread = or_else zero_f (tb.get_f32 t (str "spread"));
      color = tb.get_u32 t (str "color");
    }

    unfoldable pub parse_shadow_value : OptValue fl.F tb.T → Option (Option (LuaShadow fl.F))
    unfolding no_shadow shadow_of
    parse_shadow_value nil = some none
    parse_shadow_value (boolean false) = some none
    parse_shadow_value (boolean true) = some (some (record no_shadow { blur = fl.of_nat 8 }))
    parse_shadow_value (table t) = some (some (shadow_of t))
    parse_shadow_value (number n) = none
    parse_shadow_value other = none

    -- the option `shadow` of a table
    unfoldable pub shadow_option : tb.T → Option (Option (LuaShadow fl.F))
    unfolding parse_shadow_value
    shadow_option t = elim (tb.get_value t (str "shadow")) [
      | none ↦ some none
      | some v ↦ parse_shadow_value v
    ]

    unfoldable pub parse_shape_shadow :
        Option (OptValue fl.F tb.T) → Option (Option (LuaShadow fl.F))
    unfolding shadow_option
    parse_shape_shadow (some (table t)) = shadow_option t
    parse_shape_shadow _ = some none

    unfoldable pub parse_dir : Str → Option Bool
    unfolding str_eq
    parse_dir dir =
        if str_eq dir (str "vertical") || (str_eq dir (str "v") || str_eq dir (str "y"))
        then some true
        else if str_eq dir (str "horizontal") || (str_eq dir (str "h") || str_eq dir (str "x"))
        then some false
        else none

    -- `dir` has the last word on `vertical`
    unfoldable pub vertical_of : tb.T → Option Bool
    unfolding parse_dir
    vertical_of t = elim (tb.get_string t (str "dir")) [
      | none ↦ some (or_else false (tb.get_bool t (str "vertical")))
      | some dir ↦ parse_dir dir
    ]

    unfoldable pub parse_gradient_rect_opts :
        Option (OptValue fl.F tb.T) → Option (GradientRectOpts fl.F)
    unfolding vertical_of shadow_option default_gradient
    parse_gradient_rect_opts (some (table t)) = elim (vertical_of t) [
      | none ↦ none
      | some vertical ↦ elim (shadow_option t) [
        | none ↦ none
        | some shadow ↦ some (record {
          vertical = vertical;
          radius = elim (tb.get_f32 t (str "radius")) [ none ↦ zero_f | some r ↦ fl.max r zero_f ];
          shadow = shadow;
        })
      ]
    ]
    parse_gradient_rect_opts _ = some default_gradient
