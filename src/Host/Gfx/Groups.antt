-- ===== src/Host/Gfx/Groups.antt =====
-- `push_origin` and `pop_origin`: a group of calls is written in its own coordinates and placed once.
use sni_lua.Common.Float.{Float}
use sni_lua.Common.{
  Option-cases, List-cases, ◌≡◌, refl, sym, ap, ◌∙◌, arith, inl, inr, Bool, true, false, List, [],
  ◌∷◌, ◌++◌, Option, none, some,
}
use sni_lua.Host.Gfx.State.{
  Gfx, offset, origin_pushed, origin_popped, path_drawn, text_sizing, read_points,
}
use sni_lua.Host.Gfx.Draws.{
  draw_text, request_text_sizing, draw_box, draw_round_rect, draw_gradient_rect, draw_poly,
}
use sni_lua.Host.Gfx.Table.{
  Call, call_at, call, gfx_text, gfx_push_origin, gfx_pop_origin, gfx_text_sizing, gfx_box,
  gfx_round_rect, gfx_gradient_rect, gfx_poly, gfx_fill_path, gfx_stroke_path,
}
use sni_lua.Render.{Color}
use sni_lua.Host.Options.{Tables, parse_text_opts, parse_shape_shadow, parse_gradient_rect_opts}

abbrev pub moves_origin : {F T : Type 0} → Call F T → Bool
moves_origin (gfx_push_origin x y) = true
moves_origin gfx_pop_origin = true
moves_origin _ = false

-- Each push has its pop.
pub data Balanced {F T : Type 0} : List (Call F T) → Type 0 where
  nothing : Balanced []
  draws :
      {c : Call F T} {cs : List (Call F T)}
      → moves_origin c ≡ false
      → Balanced cs
      → Balanced (c ∷ cs)
  group :
      {x y : F} {inner cs : List (Call F T)}
      → Balanced inner
      → Balanced cs
      → Balanced (gfx_push_origin x y ∷ inner ++ gfx_pop_origin ∷ cs)

module _ (fl : Float) (tb : Tables fl.F) where
  abbrev pub then_do : Option (Gfx fl.F) → (Gfx fl.F → Option (Gfx fl.F)) → Option (Gfx fl.F)
  then_do none f = none
  then_do (some g) f = f g

  -- the calls of a script up to the first error
  unfoldable pub run : List (Call fl.F tb.T) → Gfx fl.F → Option (Gfx fl.F)
  unfolding call
  run [] g = some g
  run (c ∷ cs) g = then_do (call fl tb c g) (λ h. run cs h)

  abbrev pub under : List (fl.F × fl.F) → Gfx fl.F → Gfx fl.F
  under st g = record g { origin_stack = st }

  abbrev pub all_under : List (fl.F × fl.F) → Option (Gfx fl.F) → Option (Gfx fl.F)
  all_under st none = none
  all_under st (some g) = some (under st g)

  path_drawn-under :
      (st : List (fl.F × fl.F)) (color fill : Option Color) (t : Option fl.F) (g : Gfx fl.F)
      → path_drawn fl color fill t (under st g) ≡ under st (path_drawn fl color fill t g)
  unfolding path_drawn
  path_drawn-under st color fill t g = elim (List-cases g.path_builder) [
    | inl q ↦ rw (q, path_drawn) refl
    | inr (p, ps, q) ↦ rw (q, path_drawn) refl
  ]

  call_at-under :
      (o : fl.F × fl.F) (st : List (fl.F × fl.F)) (c : Call fl.F tb.T) (g : Gfx fl.F)
      → moves_origin c ≡ false
      → call_at fl tb o c (under st g) ≡ all_under st (call_at fl tb o c g)
  unfolding call_at
  call_at-under o st (gfx_text x y s color opts) g e =
      elim (Option-cases (parse_text_opts fl tb opts)) [
        | inl q ↦ rw (q, call_at, draw_text) refl
        | inr (a, q) ↦ rw (q, call_at, draw_text) refl
      ]
  call_at-under o st (gfx_push_origin x y) g e = ground arith
  call_at-under o st gfx_pop_origin g e = ground arith
  call_at-under o st (gfx_text_sizing mode size) g e =
      elim (Option-cases (text_sizing fl mode size)) [
        | inl q ↦ rw (q, call_at, request_text_sizing) refl
        | inr (a, q) ↦ rw (q, call_at, request_text_sizing) refl
      ]
  call_at-under o st (gfx_box x y w h color fill t opts) g e =
      elim (Option-cases (parse_shape_shadow fl tb opts)) [
        | inl q ↦ rw (q, call_at, draw_box) refl
        | inr (a, q) ↦ rw (q, call_at, draw_box) refl
      ]
  call_at-under o st (gfx_round_rect x y w h radius color fill t opts) g e =
      elim (Option-cases (parse_shape_shadow fl tb opts)) [
        | inl q ↦ rw (q, call_at, draw_round_rect) refl
        | inr (a, q) ↦ rw (q, call_at, draw_round_rect) refl
      ]
  call_at-under o st (gfx_gradient_rect x y w h start end opts) g e =
      elim (Option-cases (parse_gradient_rect_opts fl tb opts)) [
        | inl q ↦ rw (q, call_at, draw_gradient_rect) refl
        | inr (a, q) ↦ rw (q, call_at, draw_gradient_rect) refl
      ]
  call_at-under o st (gfx_poly points color fill t closed) g e =
      elim (Option-cases (read_points fl o points)) [
        | inl q ↦ rw (q, call_at, draw_poly) refl
        | inr (a, q) ↦ rw (q, call_at, draw_poly) refl
      ]
  call_at-under o st (gfx_fill_path fill color t) g e = ap some (path_drawn-under st _ _ t g)
  call_at-under o st (gfx_stroke_path color t) g e = ap some (path_drawn-under st _ _ t g)
  call_at-under o st _ g e = refl

  then_do-under :
      (s st : List (fl.F × fl.F)) (x : Option (Gfx fl.F)) (cs : List (Call fl.F tb.T))
      → x ≡ all_under s x
      → ((h : Gfx fl.F) → run cs (under st (under s h)) ≡ all_under st (run cs (under s h)))
      → then_do (all_under st x) (λ h. run cs h) ≡ all_under st (then_do x (λ h. run cs h))
  then_do-under s st none cs e k = refl
  then_do-under s st (some h) cs e k =
      k h ∙ ap (λ y. all_under st (then_do y (λ h. run cs h))) (sym e)

  then_do-then :
      (x : Option (Gfx fl.F)) (f k : Gfx fl.F → Option (Gfx fl.F))
      (r : Gfx fl.F → Option (Gfx fl.F))
      → ((h : Gfx fl.F) → r h ≡ then_do (f h) k)
      → then_do x r ≡ then_do (then_do x f) k
  then_do-then none f k r e = refl
  then_do-then (some h) f k r e = e h

  run-append :
      (cs ds : List (Call fl.F tb.T)) (g : Gfx fl.F)
      → run (cs ++ ds) g ≡ then_do (run cs g) (λ h. run ds h)
  unfolding run
  run-append [] ds g = refl
  run-append (c ∷ cs) ds g =
      then_do-then (call fl tb c g) (λ h. run cs h) (λ h. run ds h) (λ h. run (cs ++ ds) h)
        (λ h. run-append cs ds h)

  -- calls that leave the stack see nothing of it but the offset
  abbrev pub IsLocal : List (Call fl.F tb.T) → Type 0
  IsLocal cs =
      (g : Gfx fl.F) (st : List (fl.F × fl.F))
      → offset fl (under st g) ≡ offset fl g
      → run cs (under st g) ≡ all_under st (run cs g)

  abbrev pub moved : fl.F → fl.F → Gfx fl.F → fl.F × fl.F
  moved x y g = (fl.add (offset fl g).0 x, fl.add (offset fl g).1 y)

  popped :
      (p : fl.F × fl.F) (s : List (fl.F × fl.F)) (cs : List (Call fl.F tb.T))
      (x : Option (Gfx fl.F))
      → then_do (all_under (p ∷ s) x) (λ h. run (gfx_pop_origin ∷ cs) h)
        ≡ then_do x (λ h. run cs (under s h))
  unfolding run call call_at origin_popped
  popped p s cs none = refl
  popped p s cs (some h) = refl

  placed :
      (x y : fl.F) (inner cs : List (Call fl.F tb.T)) (g : Gfx fl.F)
      → IsLocal inner
      → run (gfx_push_origin x y ∷ inner ++ gfx_pop_origin ∷ cs) g
        ≡ then_do (run inner (under (moved x y g ∷ []) g)) (λ h. run cs (under g.origin_stack h))
  unfolding run call call_at origin_pushed origin_popped offset
  placed x y inner cs g local =
      let p = moved x y g in
      run-append inner (gfx_pop_origin ∷ cs) (under (p ∷ g.origin_stack) g)
      ∙ ap (λ r. then_do r (λ h. run (gfx_pop_origin ∷ cs) h))
          (local (under (p ∷ []) g) (p ∷ g.origin_stack) refl)
      ∙ popped p g.origin_stack cs (run inner (under (p ∷ []) g))

  IsLocal-nothing : IsLocal []
  unfolding run
  IsLocal-nothing g st e = refl

  IsLocal-draws :
      (c : Call fl.F tb.T) (cs : List (Call fl.F tb.T))
      → moves_origin c ≡ false
      → IsLocal cs
      → IsLocal (c ∷ cs)
  unfolding run call offset
  IsLocal-draws c cs still local g st e =
      let o = offset fl g in
      ap (λ o. then_do (call_at fl tb o c (under st g)) (λ h. run cs h)) e
      ∙ ap (λ x. then_do x (λ h. run cs h)) (call_at-under o st c g still)
      ∙ then_do-under g.origin_stack st (call_at fl tb o c g) cs
          (call_at-under o g.origin_stack c g still) (λ h. local (under g.origin_stack h) st e)

  under-then_do :
      (s st : List (fl.F × fl.F)) (cs : List (Call fl.F tb.T)) (x : Option (Gfx fl.F))
      → ((h : Gfx fl.F) → run cs (under st h) ≡ all_under st (run cs (under s h)))
      → then_do x (λ h. run cs (under st h)) ≡ all_under st (then_do x (λ h. run cs (under s h)))
  under-then_do s st cs none k = refl
  under-then_do s st cs (some h) k = k h

  IsLocal-group :
      (x y : fl.F) (inner cs : List (Call fl.F tb.T))
      → IsLocal inner
      → IsLocal cs
      → IsLocal (gfx_push_origin x y ∷ inner ++ gfx_pop_origin ∷ cs)
  unfolding offset
  IsLocal-group x y inner cs li lc g st e =
      placed x y inner cs (under st g) li
      ∙ ap
          (λ o.
            then_do (run inner (under ((fl.add o.0 x, fl.add o.1 y) ∷ []) g))
              (λ h. run cs (under st h)))
          e
      ∙ under-then_do g.origin_stack st cs (run inner (under (moved x y g ∷ []) g))
          (λ h. lc (under g.origin_stack h) st e)
      ∙ ap (λ r. all_under st r) (sym (placed x y inner cs g li))

  Balanced-IsLocal : {cs : List (Call fl.F tb.T)} → Balanced cs → IsLocal cs
  Balanced-IsLocal nothing = IsLocal-nothing
  Balanced-IsLocal (draws {c} {cs} e b) = IsLocal-draws c cs e (Balanced-IsLocal b)
  Balanced-IsLocal (group {x} {y} {inner} {cs} bi b) =
      IsLocal-group x y inner cs (Balanced-IsLocal bi) (Balanced-IsLocal b)

  -- A group of calls, in which every push has its pop, between a push and its pop, draws and leaves
  -- what the same calls do under one origin, the group's own moved by the offset around it, whatever
  -- else is on the stack; an error among them is the error of the whole. After the group the stack is
  -- as it was before.
  pub run-group :
      (x y : fl.F) (inner cs : List (Call fl.F tb.T)) (g : Gfx fl.F)
      → Balanced inner
      → run (gfx_push_origin x y ∷ inner ++ gfx_pop_origin ∷ cs) g
        ≡ then_do (run inner (under (moved x y g ∷ []) g)) (λ h. run cs (under g.origin_stack h))
  run-group x y inner cs g b = placed x y inner cs g (Balanced-IsLocal b)
