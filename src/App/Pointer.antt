-- ===== src/App/Pointer.antt =====
-- crates/sni-lua-app/src/main.rs, `feed_mouse`: the pointer of a frame, in the canvas's coordinates.
use sni_lua.Common.Float.{Float}
use sni_lua.Common.{
  ◌≡◌, refl, Bool, true, false, ◌||◌, Option, none, some, some_injective, if◌then◌else◌, subst,
  arith,
}
use sni_lua.Host.{MouseFrame}
use sni_lua.Render.Text.{Viewport, screen_to_canvas, le}

guarded-some :
    {A : Type 0} (a b : Bool) (x y : A)
    → (if a then none else if b then none else some x) ≡ some y
    → (b ≡ false) × (x ≡ y)
guarded-some true b x y h = ground (arith, h)
guarded-some false true x y h = ground (arith, h)
guarded-some false false x y h = (refl, some_injective h)

or-eq-false : (a b : Bool) → (a || b) ≡ false → (a ≡ false) × (b ≡ false)
or-eq-false a b h = ground arith

module _ (fl : Float) where
  -- `latest` is the pointer's position, in points of the screen, and `vp` the last frame's viewport
  unfoldable pub pointer_pos :
      Option (Viewport fl.F) → (latest : Option (fl.F × fl.F)) → Option (fl.F × fl.F)
  unfolding screen_to_canvas
  pointer_pos none latest = none
  pointer_pos (some vp) none = none
  pointer_pos (some vp) (some p) = screen_to_canvas fl vp p

  unfoldable pub pointer_frame :
      Option (Viewport fl.F)
      → (latest : Option (fl.F × fl.F)) → (buttons : Bool × Bool × Bool) → (wheel : fl.F)
      → MouseFrame fl.F
  unfolding pointer_pos
  pointer_frame vp latest buttons wheel = record {
    pos = pointer_pos vp latest;
    buttons = buttons;
    wheel = wheel;
  }

  -- neither below nor above the canvas
  pub record IsOver (vp : Viewport fl.F) (p : fl.F × fl.F) : Type 0 where
    pub right_of : fl.gt (fl.of_nat 0) p.0 ≡ false
    pub below : fl.gt (fl.of_nat 0) p.1 ≡ false
    pub left_of : fl.gt p.0 vp.canvas.w ≡ false
    pub above : fl.gt p.1 vp.canvas.h ≡ false

  screen_to_canvas-IsOver :
      (vp : Viewport fl.F) (q p : fl.F × fl.F) → screen_to_canvas fl vp q ≡ some p → IsOver vp p
  unfolding screen_to_canvas
  screen_to_canvas-IsOver vp q p h =
      let x = fl.div (fl.sub q.0 vp.origin.0) vp.scale in
      let y = fl.div (fl.sub q.1 vp.origin.1) vp.scale in
      let (e, same) =
        guarded-some (le fl vp.scale (fl.of_nat 0))
          (fl.gt (fl.of_nat 0) x
            || (fl.gt (fl.of_nat 0) y || (fl.gt x vp.canvas.w || fl.gt y vp.canvas.h)))
          (x, y) p h in
      let (a, e1) = or-eq-false _ _ e in
      let (b, e2) = or-eq-false _ _ e1 in
      let (c, d) = or-eq-false _ _ e2 in
      subst (IsOver vp) same record { right_of = a; below = b; left_of = c; above = d }

  -- A position that the script is given is over the canvas of the last frame's viewport.
  pub pointer_frame-IsOver :
      (vp : Viewport fl.F) (latest : Option (fl.F × fl.F)) (buttons : Bool × Bool × Bool)
      (wheel : fl.F) (p : fl.F × fl.F)
      → (pointer_frame (some vp) latest buttons wheel).pos ≡ some p
      → IsOver vp p
  unfolding pointer_frame pointer_pos screen_to_canvas
  pointer_frame-IsOver vp none buttons wheel p h = ground (arith, h)
  pointer_frame-IsOver vp (some q) buttons wheel p h = screen_to_canvas-IsOver vp q p h
