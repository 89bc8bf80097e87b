-- ===== src/Host.antt =====
-- crates/sni-lua-api/src/lib.rs: the state that the script host keeps beside the Lua machine, and
-- the numbers and names that its calls take. The bindings to Lua are not modelled.
pub mod Calls
pub mod Gfx
pub mod Json
pub mod Lines
pub mod Logging
pub mod Options
pub mod Panel
pub mod Polled
pub mod Requests
pub mod Saves
pub mod Script
pub mod Values
pub mod Writes
use sni_lua.Client.{MemRegion, fxpak}
use sni_lua.Common.Int.{ℤ, as_u32}
use sni_lua.Common.{
  ℕ, zero, suc, ◌+◌, ◌-◌, ◌*◌, ◌/◌, ◌%◌, ◌^◌, Bool, true, false, not, ◌&&◌, ◌||◌, List, [], ◌∷◌,
  ◌++◌, Option, none, some, get_elem?, drop, length, if◌then◌else◌, ltb, ◌==◌, min, max, Str, str,
  str_eq,
}
use sni_lua.Render.{TextAlign, left, center, right, TextVAlign, top, middle, bottom}

pub record Console : Type 0 where
  pub lines : List Str

abbrev pub console_max : ℕ
console_max = 500

-- `l.drain(0..len - 500)` drops the oldest lines
unfoldable pub push : Str → Console → Console
push s c =
    let l = c.lines ++ s ∷ [] in
    let len = length l in
    record { lines = if ltb console_max len then drop (len - console_max) l else l }

-- `F` stands for `f32`
pub record MouseFrame (F : Type 0) : Type 0 where
  pub pos : Option (F × F)
  -- left, right and middle
  pub buttons : Bool × Bool × Bool
  pub wheel : F

pub record MouseState (F : Type 0) : Type 0 where
  pub cur : MouseFrame F
  pub prev_buttons : Bool × Bool × Bool

unfoldable pub feed : {F : Type 0} → MouseFrame F → MouseState F → MouseState F
feed f m = record { cur = f; prev_buttons = m.cur.buttons }

-- `btn < 3 && buttons[btn]`
unfoldable pub held : Bool × Bool × Bool → ℕ → Bool
held (l, r, m) btn = if btn == 0 then l else if btn == 1 then r else if btn == 2 then m else false

unfoldable pub pressed : {F : Type 0} → MouseState F → ℕ → Bool
unfolding held
pressed m btn = ltb btn 3 && (held m.cur.buttons btn && not (held m.prev_buttons btn))

unfoldable pub released : {F : Type 0} → MouseState F → ℕ → Bool
unfolding held
released m btn = ltb btn 3 && (not (held m.cur.buttons btn) && held m.prev_buttons btn)

-- `none` is the error
unfoldable pub parse_text_align : Str → Option TextAlign
unfolding str_eq
parse_text_align name =
    if str_eq name (str "left")
    then some left
    else if str_eq name (str "center") || str_eq name (str "centre")
    then some center
    else if str_eq name (str "right")
    then some right
    else none

unfoldable pub parse_text_valign : Str → Option TextVAlign
unfolding str_eq
parse_text_valign name =
    if str_eq name (str "top")
    then some top
    else if str_eq name (str "middle") || (str_eq name (str "center") || str_eq name (str "centre"))
    then some middle
    else if str_eq name (str "bottom")
    then some bottom
    else none

-- the bytes `(v >> (8 * i)) & 0xFF` for `size` values of `i`, from the `i`-th on
unfoldable pub bytes_of : ℕ → ℕ → ℕ → List ℕ
bytes_of zero i v = []
bytes_of (suc size) i v = (v / 2 ^ (8 * i)) % 256 ∷ bytes_of size (suc i) v

abbrev pub written_size : Option ℕ → ℕ
written_size none = 1
written_size (some size) = min (max size 1) 4

-- What `snes.write` queues: the bytes of the value's low 32 bits, low byte first.
unfoldable pub write : ℕ → ℤ → Option ℕ → MemRegion × List ℕ
unfolding bytes_of fxpak
write addr value size =
    (fxpak addr (written_size size), bytes_of (written_size size) 0 (as_u32 value))
