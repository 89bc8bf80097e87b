-- ===== src/Config.antt =====
-- crates/sni-lua-app/src/config.rs: the settings, and the file of a script's store. The file system
-- and the parts of a path are arguments. `F` stands for `f32`.
pub mod Hash
use Prim.Native.Nat.{bit_xor}
use sni_lua.Common.Float.{Float}
use sni_lua.Common.{
  ℕ, zero, suc, ◌+◌, ◌-◌, ◌*◌, ◌/◌, ◌%◌, ◌^◌, Bool, true, false, List, [], ◌∷◌, ◌++◌, Option, none,
  some, ltb, if◌then◌else◌, u64_mod, Str, str,
}

pub record Config (F : Type 0) : Type 0 where
  pub sni_endpoint : Str
  pub poll_interval_ms : ℕ
  pub frame_budget_ms : ℕ
  pub demand_window_ms : ℕ
  pub capture_mode : Str
  pub capture_device : ℕ
  pub capture_width : ℕ
  pub capture_height : ℕ
  pub capture_fps : ℕ
  pub capture_crop_left : ℕ
  pub capture_crop_top : ℕ
  pub capture_crop_right : ℕ
  pub capture_crop_bottom : ℕ
  pub capture_crop_mode : Str
  pub stream_key_color : ℕ × ℕ × ℕ
  pub stream_detached_window : Bool
  pub stream_show_in_app_canvas : Bool
  pub stream_auto_scale : Bool
  pub stream_scale : ℕ
  pub last_script : Option Str
  pub canvas_mode : Str
  pub text_sizing_mode : Str
  pub text_size : F

unfoldable pub default : (fl : Float) → Config fl.F
default fl = record {
  sni_endpoint = str "http://127.0.0.1:8191";
  poll_interval_ms = 16;
  frame_budget_ms = 16;
  demand_window_ms = 1000;
  capture_mode = str "composited";
  capture_device = 0;
  capture_width = 0;
  capture_height = 0;
  capture_fps = 0;
  capture_crop_left = 0;
  capture_crop_top = 0;
  capture_crop_right = 0;
  capture_crop_bottom = 0;
  capture_crop_mode = str "aspect";
  stream_key_color = (255, 0, 255);
  stream_detached_window = true;
  stream_show_in_app_canvas = true;
  stream_auto_scale = true;
  stream_scale = 3;
  last_script = none;
  canvas_mode = str "script";
  text_sizing_mode = str "game";
  text_size = fl.of_nat 1;
}

-- a file that cannot be read or parsed gives the defaults
unfoldable pub load : (fl : Float) → (Str → Option (Config fl.F)) → Option Str → Config fl.F
unfolding default
load fl parse none = default fl
load fl parse (some text) = elim (parse text) [ none ↦ default fl | some c ↦ c ]

-- FNV-1a: the loop over the bytes, from the hash so far
unfoldable pub fnv1a : ℕ → List ℕ → ℕ
fnv1a h [] = h
fnv1a h (b ∷ bs) = fnv1a ((bit_xor h b * 0x100000001b3) % u64_mod) bs

abbrev pub fnv_offset : ℕ
fnv_offset = 0xcbf29ce484222325

-- one digit of `{:x}`
abbrev pub hex_digit : ℕ → ℕ
hex_digit d = if ltb d 10 then b'0' + d else b'a' + (d - 10)

-- `{:016x}`: that many digits, the highest first
unfoldable pub hex : ℕ → ℕ → Str
hex zero h = []
hex (suc n) h = hex_digit ((h / 16 ^ n) % 16) ∷ hex n h

abbrev pub unwrap_or : Option Str → Str → Str
unwrap_or none d = d
unwrap_or (some s) d = s

-- The name of the store's file in the store's directory; `none` is a program without a directory.
unfoldable pub store_path_for :
    (exe_dir : Option Str)
    → (join : Str → Str → Str) → (canonicalize file_stem : Str → Option Str) → Str
    → Option Str
unfolding fnv1a hex
store_path_for none join canonicalize file_stem script = none
store_path_for (some dir) join canonicalize file_stem script =
    let abs = unwrap_or (canonicalize script) script in
    let stem = unwrap_or (file_stem script) (str "script") in
    let h = fnv1a fnv_offset abs in
    some (join (join dir (str "store")) (stem ++ str "." ++ hex 16 h ++ str ".json"))
