-- ===== src/Capture/Texture.antt =====
-- crates/sni-lua-app/src/main.rs, `capture_texture`: a frame is uploaded only when its number is new.
use sni_lua.Capture.{
  CaptureMode, composited, streaming_overlay, CaptureSource, Frame, capture_round, open_source,
}
use sni_lua.Common.{
  ℕ, ◌≤◌, ◌≡◌, refl, sym, ap, Bool, true, false, List, [], ◌∷◌, Option, none, some, not, ◌||◌, ◌==◌,
  if◌then◌else◌, arith, Bool-cases, eq_of_==, inl, inr,
}

-- the fields of `App` for the capture; there is no source in the streaming mode
pub record Textured (Image : Type 0) : Type 0 where
  pub capture : Option (CaptureSource Image)
  pub capture_tex : Option Image
  pub capture_tex_seq : ℕ

pub data Op (Image : Type 0) : Type 0 where
  captures : Option (ℕ × ℕ × Image) → Op Image
  repaints : Op Image
  restarts : CaptureMode → Op Image

module _ {Image : Type 0} where
  abbrev pub latest_of : Option (CaptureSource Image) → Option (Frame Image)
  latest_of none = none
  latest_of (some c) = c.latest

  abbrev pub is_none : Option Image → Bool
  is_none none = true
  is_none (some i) = false

  -- the upload of a frame
  unfoldable pub upload : Frame Image → Textured Image → Textured Image × Option Image
  upload f a =
      if is_none a.capture_tex || not (f.seq == a.capture_tex_seq)
      then (record a { capture_tex = some f.pixels; capture_tex_seq = f.seq }, some f.pixels)
      else (a, a.capture_tex)

  -- the texture after a repaint, `None` until there is a frame
  unfoldable pub capture_texture : Textured Image → Textured Image × Option Image
  unfolding upload
  capture_texture a = elim (latest_of a.capture) [ none ↦ (a, none) | some f ↦ upload f a ]

  unfoldable pub restart_capture : CaptureMode → Textured Image → Textured Image
  unfolding open_source
  restart_capture mode a = record {
    capture = elim mode [ composited ↦ some open_source | streaming_overlay ↦ none ];
    capture_tex = none;
    capture_tex_seq = 0;
  }

  -- a round of the capture's thread
  abbrev round_of :
      Option (ℕ × ℕ × Image) → Option (CaptureSource Image) → Option (CaptureSource Image)
  round_of r none = none
  round_of r (some c) = some (capture_round r c)

  unfoldable pub step : Op Image → Textured Image → Textured Image
  unfolding capture_round capture_texture restart_capture
  step (captures r) a = record a { capture = round_of r a.capture }
  step repaints a = (capture_texture a).0
  step (restarts mode) a = restart_capture mode a

  unfoldable pub run : List (Op Image) → Textured Image → Textured Image
  unfolding step
  run [] a = a
  run (op ∷ ops) a = run ops (step op a)

  unfoldable pub untextured : Textured Image
  untextured = record { capture = none; capture_tex = none; capture_tex_seq = 0 }

  -- the newest frame has the thread's number
  abbrev Numbered : CaptureSource Image → Type 0
  Numbered c = elim c.latest [ none ↦ Unit {0} | some f ↦ f.seq ≡ c.seq ]

  -- a texture that has the newest frame's number shows that frame
  abbrev Shows : Image → ℕ → CaptureSource Image → Type 0
  Shows img n c = (n ≤ c.seq) × elim c.latest [ none ↦ ⊥ | some f ↦ n ≡ f.seq → img ≡ f.pixels ]

  abbrev Fresh : Option (CaptureSource Image) → Option Image → ℕ → Type 0
  Fresh none none n = Unit {0}
  Fresh none (some img) n = ⊥
  Fresh (some c) none n = Numbered c
  Fresh (some c) (some img) n = Numbered c × Shows img n c

  abbrev IsFresh : Textured Image → Type 0
  IsFresh a = Fresh a.capture a.capture_tex a.capture_tex_seq

  round-Fresh :
      (r : Option (ℕ × ℕ × Image)) (c : Option (CaptureSource Image)) (t : Option Image) (n : ℕ)
      → Fresh c t n
      → Fresh (round_of r c) t n
  unfolding capture_round
  round-Fresh r none none n h = h
  round-Fresh r none (some img) n h = h
  round-Fresh none (some c) none n h = h
  round-Fresh none (some c) (some img) n h = h
  round-Fresh (some (w, d, i)) (some c) none n h = refl
  round-Fresh (some (w, d, i)) (some c) (some img) n h =
      (refl, (omega (arith, h.1.0), λ e. absurd (omega (arith, h.1.0, e))))

  -- the newest frame's pixels
  abbrev pub newest : Textured Image → Option Image
  newest a = elim (latest_of a.capture) [ none ↦ none | some f ↦ some f.pixels ]

  -- the repaint of a source that has a frame
  upload-Fresh :
      (f : Frame Image) (s : ℕ) (t : Option Image) (n : ℕ)
      → let c : Option (CaptureSource Image) = some (record { latest = some f; seq = s }) in
        let a : Textured Image = record { capture = c; capture_tex = t; capture_tex_seq = n } in
        Fresh c t n → ((upload f a).1 ≡ some f.pixels) × IsFresh (upload f a).0
  unfolding upload
  upload-Fresh f s none n h = (refl, (h, (omega (arith, h), λ e. refl)))
  upload-Fresh f s (some img) n h = elim (Bool-cases (f.seq == n)) [
    | inl e ↦ rw e (ap some (h.1.1 (sym (eq_of_== f.seq n e))), h)
    | inr e ↦ rw e (refl, (h.0, (omega (arith, h.0), λ e. refl)))
  ]

  repaint-Fresh :
      (c : Option (CaptureSource Image)) (t : Option Image) (n : ℕ)
      → let a : Textured Image = record { capture = c; capture_tex = t; capture_tex_seq = n } in
        Fresh c t n → ((capture_texture a).1 ≡ newest a) × IsFresh (capture_texture a).0
  unfolding capture_texture
  repaint-Fresh none t n h = (refl, h)
  repaint-Fresh (some c) t n h = go c.latest c.seq h
    where
      go :
          (l : Option (Frame Image)) (s : ℕ)
          → let c : Option (CaptureSource Image) = some (record { latest = l; seq = s }) in
            let a : Textured Image = record { capture = c; capture_tex = t; capture_tex_seq = n } in
            Fresh c t n → ((capture_texture a).1 ≡ newest a) × IsFresh (capture_texture a).0
      go none s h = (refl, h)
      go (some f) s h = upload-Fresh f s t n h

  restart-Fresh : (mode : CaptureMode) (a : Textured Image) → IsFresh (restart_capture mode a)
  unfolding restart_capture open_source
  restart-Fresh composited a = tt
  restart-Fresh streaming_overlay a = tt

  run-Fresh : (ops : List (Op Image)) (a : Textured Image) → IsFresh a → IsFresh (run ops a)
  unfolding run step
  run-Fresh [] a h = h
  run-Fresh (captures r ∷ ops) a h =
      run-Fresh ops (step (captures r) a)
        (round-Fresh r a.capture a.capture_tex a.capture_tex_seq h)
  run-Fresh (repaints ∷ ops) a h =
      run-Fresh ops (step repaints a) (repaint-Fresh a.capture a.capture_tex a.capture_tex_seq h).1
  run-Fresh (restarts mode ∷ ops) a h =
      run-Fresh ops (step (restarts mode) a) (restart-Fresh mode a)

  -- Uploading only frames with a new number loses nothing: after any rounds of the capture's thread,
  -- decoded or failed, repaints and changes of the source or of the mode, a repaint gets the pixels of
  -- the newest frame of the source that is open, and nothing while there is none.
  pub capture_texture-newest :
      (ops : List (Op Image)) → let a = run ops untextured in (capture_texture a).1 ≡ newest a
  unfolding untextured
  capture_texture-newest ops =
      let a = run ops untextured in
      (repaint-Fresh a.capture a.capture_tex a.capture_tex_seq (run-Fresh ops untextured tt)).0
