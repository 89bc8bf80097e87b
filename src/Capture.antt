-- ===== src/Capture.antt =====
-- crates/sni-capture/src/lib.rs: the choice of a camera's format and the frames of the capture thread.
-- The camera is nokhwa's: what it answers is an argument. `P` stands for its pixel formats.
pub mod Best
pub mod Texture
use sni_lua.Common.Sort.{sort_by}
use sni_lua.Common.{
  ℕ, suc, ◌+◌, ◌-◌, ◌*◌, ◌%◌, Bool, true, false, ◌||◌, List, [], ◌∷◌, Option, none, some, first,
  retain, ltb, leb, ◌==◌, if◌then◌else◌, u64_mod, Str, str, str_eq, add64,
}

pub data CaptureMode : Type 0 where
  composited streaming_overlay : CaptureMode

unfoldable pub parse : Str → CaptureMode
unfolding str_eq
parse s =
    if str_eq s (str "stream") || str_eq s (str "streaming") then streaming_overlay else composited

pub record CaptureSettings : Type 0 where
  pub width : ℕ
  pub height : ℕ
  pub fps : ℕ

unfoldable pub wants_format : CaptureSettings → Bool
wants_format s = ltb 0 s.width || (ltb 0 s.height || ltb 0 s.fps)

unfoldable pub wants_resolution : CaptureSettings → Bool
wants_resolution s = ltb 0 s.width || ltb 0 s.height

-- nokhwa's `CameraFormat`
pub record CameraFormat (P : Type 0) : Type 0 where
  pub width : ℕ
  pub height : ℕ
  pub frame_rate : ℕ
  pub format : P

abbrev pub abs_diff : ℕ → ℕ → ℕ
abs_diff a b = (a - b) + (b - a)

-- one part of a key: `rest` decides where it is equal
unfoldable pub before : ℕ → ℕ → Bool → Bool
before a b rest = if ltb a b then true else if ltb b a then false else rest

module _ {P : Type 0} where
  -- the sum of the squares wraps, as in a release build
  unfoldable pub resolution_score : CameraFormat P → CaptureSettings → ℕ
  unfolding wants_resolution
  resolution_score f s =
      let dx = if ltb 0 s.width then abs_diff f.width s.width else 0 in
      let dy = if ltb 0 s.height then abs_diff f.height s.height else 0 in
      if wants_resolution s then add64 (dx * dx) (dy * dy) else 0

  unfoldable pub fps_score : CameraFormat P → CaptureSettings → ℕ
  fps_score f s = if s.fps == 0 then 0 else abs_diff f.frame_rate s.fps

  unfoldable pub format_area : CameraFormat P → ℕ
  format_area f = f.width * f.height

  -- the order of the keys that `sort_by_key` compares; a reversed part has its sides swapped
  unfoldable pub comes_first : CaptureSettings → CameraFormat P → CameraFormat P → Bool
  unfolding before
  comes_first s f g = before (resolution_score f s) (resolution_score g s) (
      before (fps_score f s) (fps_score g s)
        (before g.frame_rate f.frame_rate (leb (format_area g) (format_area f))))

  -- `decodes` is whether the decoder's list of formats has the pixel format
  unfoldable pub choose_format :
      (P → Bool) → List (CameraFormat P) → CaptureSettings → Option (CameraFormat P)
  unfolding comes_first sort_by
  choose_format decodes formats s =
      first (sort_by (comes_first s) (retain (λ f. decodes f.format) formats))

-- `Image` stands for the pixels.
pub record Frame (Image : Type 0) : Type 0 where
  pub width : ℕ
  pub height : ℕ
  pub pixels : Image
  pub seq : ℕ

-- the slot of the newest frame, and the thread's counter
pub record CaptureSource (Image : Type 0) : Type 0 where
  pub latest : Option (Frame Image)
  pub seq : ℕ

-- one round of the thread's loop: a decoded image with its size, or a failure
unfoldable pub capture_round :
    {Image : Type 0} → Option (ℕ × ℕ × Image) → CaptureSource Image → CaptureSource Image
capture_round none c = c
capture_round (some (w, h, img)) c = record {
  latest = some (record { width = w; height = h; pixels = img; seq = suc c.seq });
  seq = suc c.seq;
}

unfoldable pub open_source : {Image : Type 0} → CaptureSource Image
open_source = record { latest = none; seq = 0 }
