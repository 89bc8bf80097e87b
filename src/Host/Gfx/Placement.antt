-- ===== src/Host/Gfx/Placement.antt =====
-- Where a call draws: the points of its commands, against the points of its arguments.
use mathlib.Core.List.{append_assoc, append-nil, map-append}
use sni_lua.Common.Float.{Float}
use sni_lua.Common.{
  Option-cases, List-cases, some_injective, ◌≡◌, refl, sym, ap, ◌∙◌, arith, inl, inr, List, [], ◌∷◌,
  ◌++◌, Option, none, some, map, subst,
}
use sni_lua.Host.Gfx.State.{
  Gfx, emit, add_shape, offset, origin_pushed, origin_popped, path_drawn, text_sizing, read_points,
}
use sni_lua.Host.Gfx.Draws.{
  draw_text, request_text_sizing, draw_box, draw_round_rect, draw_gradient_rect, draw_poly,
}
use sni_lua.Host.Gfx.Table.{
  Call, call_at, call, gfx_text, gfx_push_origin, gfx_pop_origin, gfx_text_sizing, gfx_box,
  gfx_round_rect, gfx_gradient_rect, gfx_line, gfx_gradient_line, gfx_pixel, gfx_circle,
  gfx_triangle, gfx_poly, gfx_begin_path, gfx_path_rect, gfx_path_round_rect, gfx_path_circle,
  gfx_fill_path, gfx_stroke_path, gfx_arc,
}
use sni_lua.Host.Options.{
  Tables, or_else, parse_text_opts, parse_shape_shadow, parse_gradient_rect_opts,
}
use sni_lua.Render.{
  Color, DrawCmd, push, text, rect, round_rect, line, pixel, circle, triangle, poly, gradient_line,
  gradient_rect, path, arc, PathPrimitive, path_rect, path_round_rect, path_circle,
}

module _ {F : Type 0} where
  -- the corner, the centre or the ends of a shape, in the order of its fields
  abbrev pub shape_point : PathPrimitive F → F × F
  shape_point (path_rect x y w h) = (x, y)
  shape_point (path_round_rect x y w h r) = (x, y)
  shape_point (path_circle x y r) = (x, y)

  abbrev pub points : DrawCmd F → List (F × F)
  points (text x y s c k f bg o a v) = (x, y) ∷ []
  points (rect x y w h c f t s) = (x, y) ∷ []
  points (round_rect x y w h r c f t s) = (x, y) ∷ []
  points (line x1 y1 x2 y2 c t) = (x1, y1) ∷ (x2, y2) ∷ []
  points (pixel x y c) = (x, y) ∷ []
  points (circle x y r c f t) = (x, y) ∷ []
  points (triangle x1 y1 x2 y2 x3 y3 c f t) = (x1, y1) ∷ (x2, y2) ∷ (x3, y3) ∷ []
  points (poly ps closed c f t) = ps
  points (gradient_line x1 y1 x2 y2 s e t) = (x1, y1) ∷ (x2, y2) ∷ []
  points (gradient_rect x y w h r s e v sh) = (x, y) ∷ []
  points (path shapes c f t) = map shape_point shapes
  points (arc x y r s e c f t) = (x, y) ∷ []

  unfoldable pub all_points : List (DrawCmd F) → List (F × F)
  all_points [] = []
  all_points (c ∷ cs) = points c ++ all_points cs

  abbrev pub drawn : Gfx F → List (F × F)
  drawn g = all_points g.draw.cmds

  abbrev pub shaped : Gfx F → List (F × F)
  shaped g = map shape_point g.path_builder

  -- the readable points up to the first that is not
  abbrev pub given : List (Option (F × F)) → List (F × F)
  given [] = []
  given (none ∷ ps) = []
  given (some p ∷ ps) = p ∷ given ps

  -- the points among a call's arguments: those that it draws, and those that it adds to the path
  abbrev pub to_draw : {T : Type 0} → Call F T → List (F × F)
  to_draw (gfx_text x y s c o) = (x, y) ∷ []
  to_draw (gfx_box x y w h c f t o) = (x, y) ∷ []
  to_draw (gfx_round_rect x y w h r c f t o) = (x, y) ∷ []
  to_draw (gfx_gradient_rect x y w h s e o) = (x, y) ∷ []
  to_draw (gfx_line x1 y1 x2 y2 c t) = (x1, y1) ∷ (x2, y2) ∷ []
  to_draw (gfx_gradient_line x1 y1 x2 y2 s e t) = (x1, y1) ∷ (x2, y2) ∷ []
  to_draw (gfx_pixel x y c) = (x, y) ∷ []
  to_draw (gfx_circle x y r c f t) = (x, y) ∷ []
  to_draw (gfx_triangle x1 y1 x2 y2 x3 y3 c f t) = (x1, y1) ∷ (x2, y2) ∷ (x3, y3) ∷ []
  to_draw (gfx_poly ps c f t closed) = given ps
  to_draw (gfx_arc x y r s e c f t) = (x, y) ∷ []
  to_draw _ = []

  abbrev pub to_path : {T : Type 0} → Call F T → List (F × F)
  to_path (gfx_path_rect x y w h) = (x, y) ∷ []
  to_path (gfx_path_round_rect x y w h r) = (x, y) ∷ []
  to_path (gfx_path_circle x y r) = (x, y) ∷ []
  to_path _ = []

  all_points-append :
      (cs : List (DrawCmd F)) (c : DrawCmd F)
      → all_points (cs ++ c ∷ []) ≡ all_points cs ++ points c
  unfolding all_points
  all_points-append [] c = append-nil (points c)
  all_points-append (d ∷ cs) c =
      ap (λ ps. points d ++ ps) (all_points-append cs c)
      ∙ sym (append_assoc (points d) (all_points cs) (points c))

module _ (fl : Float) (tb : Tables fl.F) where
  abbrev pub move : fl.F × fl.F → fl.F × fl.F → fl.F × fl.F
  move o p = (fl.add p.0 o.0, fl.add p.1 o.1)

  -- what a call draws of the path that is under way
  abbrev pub path_points : Call fl.F tb.T → Gfx fl.F → List (fl.F × fl.F)
  path_points (gfx_fill_path f c t) g = shaped g
  path_points (gfx_stroke_path c t) g = shaped g
  path_points _ g = []

  abbrev pub kept_path : Call fl.F tb.T → Gfx fl.F → List (fl.F × fl.F)
  kept_path gfx_begin_path g = []
  kept_path _ g = shaped g

  -- the points after a call under an offset
  abbrev pub Places : fl.F × fl.F → Call fl.F tb.T → Gfx fl.F → Gfx fl.F → Type 0
  Places o c g h =
      (drawn h ≡ drawn g ++ (map (move o) (to_draw c) ++ path_points c g))
      × (shaped h ≡ kept_path c g ++ map (move o) (to_path c))

  abbrev pub PlacesIf : fl.F × fl.F → Call fl.F tb.T → Gfx fl.F → Option (Gfx fl.F) → Type 0
  PlacesIf o c g none = Unit
  PlacesIf o c g (some h) = Places o c g h

  -- a call that draws, one that adds to the path, one that draws the path, and the rest
  emit-places :
      (c : DrawCmd fl.F) (g : Gfx fl.F)
      → (drawn (emit fl c g) ≡ drawn g ++ (points c ++ [])) × (shaped g ≡ shaped g ++ [])
  unfolding push
  emit-places c g = (
    all_points-append g.draw.cmds c ∙ ap (λ ps. drawn g ++ ps) (sym (append-nil (points c))),
    sym (append-nil (shaped g)),
  )

  add_shape-places :
      (p : PathPrimitive fl.F) (g : Gfx fl.F)
      → (drawn g ≡ drawn g ++ []) × (shaped (add_shape fl p g) ≡ shaped g ++ shape_point p ∷ [])
  add_shape-places p g =
      (sym (append-nil (drawn g)), map-append shape_point g.path_builder (p ∷ []))

  path_drawn-places :
      (color fill : Option Color) (t : Option fl.F) (g : Gfx fl.F)
      → let h = path_drawn fl color fill t g in
        (drawn h ≡ drawn g ++ shaped g) × (shaped h ≡ shaped g ++ [])
  unfolding path_drawn push
  path_drawn-places color fill t g = elim (List-cases g.path_builder) [
    | inl q ↦ rw (q, path_drawn) (rw (q) (sym (append-nil (drawn g)), refl))
    | inr (p, ps, q) ↦
        rw (q, path_drawn)
          (
            all_points-append g.draw.cmds (path (p ∷ ps) color fill (or_else (fl.of_nat 1) t)),
            rw q (sym (append-nil (shape_point p ∷ map shape_point ps))),
          )
  ]

  rests : (g : Gfx fl.F) → (drawn g ≡ drawn g ++ []) × (shaped g ≡ shaped g ++ [])
  rests g = (sym (append-nil (drawn g)), sym (append-nil (shaped g)))

  read-first :
      (p : fl.F × fl.F) (x : Option (List (fl.F × fl.F))) (qs : List (fl.F × fl.F))
      → elim x [ none ↦ none | some rest ↦ some (p ∷ rest) ] ≡ some qs
      → (rest : List (fl.F × fl.F)) × (x ≡ some rest) × (qs ≡ p ∷ rest)
  read-first p none qs e = ground (arith, e)
  read-first p (some rest) qs e = (rest, refl, sym (some_injective e))

  read_points-given :
      (o : fl.F × fl.F) (ps : List (Option (fl.F × fl.F))) (qs : List (fl.F × fl.F))
      → read_points fl o ps ≡ some qs
      → qs ≡ map (move o) (given ps)
  unfolding read_points
  read_points-given o [] qs e = sym (some_injective e)
  read_points-given o (none ∷ ps) qs e = ground (arith, e)
  read_points-given o (some p ∷ ps) qs e =
      let (rest, q, f) = read-first (move o p) (read_points fl o ps) qs e in
      f ∙ ap (λ l. move o p ∷ l) (read_points-given o ps rest q)

  call_at-places :
      (o : fl.F × fl.F) (c : Call fl.F tb.T) (g : Gfx fl.F) → PlacesIf o c g (call_at fl tb o c g)
  unfolding call_at origin_pushed origin_popped
  call_at-places o (gfx_text x y s color opts) g =
      elim (Option-cases (parse_text_opts fl tb opts)) [
        | inl q ↦ rw (q, call_at, draw_text) tt
        | inr (a, q) ↦ rw (q, call_at, draw_text) (emit-places _ g)
      ]
  call_at-places o (gfx_box x y w h c f t opts) g =
      elim (Option-cases (parse_shape_shadow fl tb opts)) [
        | inl q ↦ rw (q, call_at, draw_box) tt
        | inr (a, q) ↦ rw (q, call_at, draw_box) (emit-places _ g)
      ]
  call_at-places o (gfx_round_rect x y w h r c f t opts) g =
      elim (Option-cases (parse_shape_shadow fl tb opts)) [
        | inl q ↦ rw (q, call_at, draw_round_rect) tt
        | inr (a, q) ↦ rw (q, call_at, draw_round_rect) (emit-places _ g)
      ]
  call_at-places o (gfx_gradient_rect x y w h s e opts) g =
      elim (Option-cases (parse_gradient_rect_opts fl tb opts)) [
        | inl q ↦ rw (q, call_at, draw_gradient_rect) tt
        | inr (a, q) ↦ rw (q, call_at, draw_gradient_rect) (emit-places _ g)
      ]
  call_at-places o (gfx_poly ps c f t closed) g = elim (Option-cases (read_points fl o ps)) [
    | inl q ↦ rw (q, call_at, draw_poly) tt
    | inr (a, q) ↦ rw (q, call_at, draw_poly) (rw (← read_points-given o ps a q) (emit-places _ g))
  ]
  call_at-places o (gfx_line x1 y1 x2 y2 c t) g = emit-places _ g
  call_at-places o (gfx_gradient_line x1 y1 x2 y2 s e t) g = emit-places _ g
  call_at-places o (gfx_pixel x y c) g = emit-places _ g
  call_at-places o (gfx_circle x y r c f t) g = emit-places _ g
  call_at-places o (gfx_triangle x1 y1 x2 y2 x3 y3 c f t) g = emit-places _ g
  call_at-places o (gfx_arc x y r s e c f t) g = emit-places _ g
  call_at-places o (gfx_path_rect x y w h) g = add_shape-places _ g
  call_at-places o (gfx_path_round_rect x y w h r) g = add_shape-places _ g
  call_at-places o (gfx_path_circle x y r) g = add_shape-places _ g
  call_at-places o (gfx_fill_path f c t) g = path_drawn-places _ _ t g
  call_at-places o (gfx_stroke_path c t) g = path_drawn-places _ _ t g
  call_at-places o gfx_begin_path g = (sym (append-nil (drawn g)), refl)
  call_at-places o (gfx_text_sizing m s) g = elim (Option-cases (text_sizing fl m s)) [
    | inl q ↦ rw (q, call_at, request_text_sizing) tt
    | inr (a, q) ↦ rw (q, call_at, request_text_sizing) (rests g)
  ]
  call_at-places o (gfx_push_origin x y) g = rests g
  call_at-places o gfx_pop_origin g = rests g
  call_at-places o _ g = rests g

  -- What a call that succeeds adds to the drawing, and to the path under way, lies at the points of its
  -- arguments, each moved by the offset of the state, in their order; `fill_path` and `stroke_path`
  -- draw the path's shapes where they were put, and keep them; `begin_path` forgets them; and no call
  -- moves what was drawn before.
  pub call-Places :
      (c : Call fl.F tb.T) (g h : Gfx fl.F) → call fl tb c g ≡ some h → Places (offset fl g) c g h
  unfolding call
  call-Places c g h e =
      subst (λ r. PlacesIf (offset fl g) c g r) e (call_at-places (offset fl g) c g)
