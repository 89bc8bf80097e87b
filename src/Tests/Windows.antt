-- ===== src/Tests/Windows.antt =====
-- The capture, the crop and the store's file at concrete inputs.
use sni_lua.App.Crop.{IsExact, IsSpan, Sides, scaled_to, capture_uv_rect, capture_uv_rect-IsSpan}
use sni_lua.Capture.Best.{IsAsGood, choose_format-IsAsGood}
use sni_lua.Capture.Texture.{
  Op, captures, repaints, restarts, run, untextured, capture_texture, newest,
  capture_texture-newest,
}
use sni_lua.Capture.{CaptureSettings, CameraFormat, choose_format, composited}
use sni_lua.Config.Hash.{IsPlain, AreSeparators, store_path_for-hash}
use sni_lua.Config.{Config, store_path_for, fnv1a, fnv_offset, hex, unwrap_or}
use sni_lua.Config as Config
use sni_lua.Common.{
  ℕ, ◌≡◌, refl, arith, Bool, true, false, List, [], ◌∷◌, ◌++◌, some, none, retain, All, Memᴰ, ◌⊎◌,
  Str, str, str_eq, drop, ap, ◌==◌, if◌then◌else◌, Bool-cases, inl, inr, eq_of_==, subst,
  some_injective,
}
use sni_lua.Render.{Canvas}
use sni_lua.Tests.Data.{whole}

abbrev wanted : CaptureSettings
wanted = record { width = 1280; height = 720; fps = 60 }

abbrev offered : List (CameraFormat Bool)
offered =
    record { width = 1920; height = 1080; frame_rate = 30; format = true }
    ∷ record { width = 1280; height = 720; frame_rate = 30; format = true }
    ∷ record { width = 1280; height = 720; frame_rate = 60; format = false }
    ∷ []

choose_format-IsAsGood_example :
    let usable = retain (λ f. f.format) offered in
    ((f : CameraFormat Bool) × (choose_format (λ b. b) offered wanted ≡ some f)
      × Memᴰ f usable
      × All (IsAsGood wanted f) usable)
    ⊎ ((choose_format (λ b. b) offered wanted ≡ none) × (usable ≡ []))
choose_format-IsAsGood_example = choose_format-IsAsGood wanted (λ b. b) offered

abbrev rounds : List (Op ℕ)
rounds =
    restarts composited
    ∷ captures (some (2, 2, 7))
    ∷ repaints
    ∷ captures none
    ∷ captures (some (2, 2, 8))
    ∷ []

capture_texture-newest_example :
    (capture_texture (run rounds untextured)).1 ≡ newest (run rounds untextured)
capture_texture-newest_example = capture_texture-newest rounds

-- `Path::join` of Unix: an absolute path replaces the directory, and a slash is put where none is
abbrev is_slash : ℕ → Bool
is_slash c = c == b'/'

abbrev is_absolute : Str → Bool
is_absolute [] = false
is_absolute (c ∷ s) = is_slash c

abbrev ends_in_slash : Str → Bool
ends_in_slash [] = true
ends_in_slash (c ∷ []) = is_slash c
ends_in_slash (c ∷ d ∷ s) = ends_in_slash (d ∷ s)

abbrev joined : Str → Str → Str
joined d a = if is_absolute a then a else if ends_in_slash d then d ++ a else d ++ b'/' ∷ a

after_prefix : (d a b : Str) → d ++ a ≡ d ++ b → a ≡ b
after_prefix [] a b e = e
after_prefix (c ∷ d) a b e = after_prefix d a b (ap (drop 1) e)

relative : (a : Str) → IsPlain is_slash a → is_absolute a ≡ false
relative [] h = refl
relative (c ∷ a) h = h.0

joined-injective :
    (d a b : Str) → IsPlain is_slash a → IsPlain is_slash b → joined d a ≡ joined d b → a ≡ b
joined-injective d a b p q e = elim (Bool-cases (ends_in_slash d)) [
  | inl s ↦ after_prefix d a b (rw (relative a p, relative b q, s) at e)
  | inr s ↦
      ap (drop 1) (after_prefix d (b'/' ∷ a) (b'/' ∷ b) (rw (relative a p, relative b q, s) at e))
]

unix_separators : AreSeparators is_slash
unix_separators c h = inl (eq_of_== c b'/' h)

abbrev path_of_map : Str
path_of_map =
    joined (joined (str "/app") (str "store"))
      (str "map" ++ str "." ++ hex 16 (fnv1a fnv_offset (str "/a/map.lua")) ++ str ".json")

-- one script under two names
store_path_for-hash_example :
    fnv1a fnv_offset (unwrap_or (some (str "/a/map.lua")) (str "map.lua"))
    ≡ fnv1a fnv_offset (unwrap_or (some (str "/a/map.lua")) (str "./map.lua"))
unfolding store_path_for
store_path_for-hash_example =
    store_path_for-hash is_slash (str "/app") joined (λ s. some (str "/a/map.lua"))
      (λ s. some (str "map")) (str "map.lua") (str "./map.lua") path_of_map unix_separators
      (λ p s e. subst (IsPlain is_slash) (some_injective e) (refl, (refl, (refl, tt))))
      joined-injective refl refl

abbrev whole-IsExact : IsExact whole 16777216
whole-IsExact = record {
  gt = λ a b h k. refl;
  eq = λ a b h k. refl;
  sub = λ a b h k. refl;
  add = λ a b h. refl;
  min = λ a b h k. refl;
}

abbrev cropped : Config ℕ
cropped = record (Config.default whole) {
  capture_crop_left = 300;
  capture_crop_right = 2000;
  capture_crop_mode = str "full";
}

capture_uv_rect-IsSpan_example :
    let canvas : Canvas ℕ = record { w = 256; h = 224 } in
    (s : Sides ℕ) × (capture_uv_rect whole cropped 320 240 canvas ≡ scaled_to whole 320 240 s)
    × IsSpan whole whole-IsExact 320 (s.left, s.right)
    × IsSpan whole whole-IsExact 240 (s.top, s.bottom)
unfolding str_eq
capture_uv_rect-IsSpan_example =
    capture_uv_rect-IsSpan whole whole-IsExact cropped 320 240 (record { w = 256; h = 224 })
      (omega arith) (omega arith) refl
