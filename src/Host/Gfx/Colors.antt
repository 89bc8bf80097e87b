-- ===== src/Host/Gfx/Colors.antt =====
-- `gfx.argb` and `gfx.color_lerp`. An or of bytes shifted to their places is a sum.
use sni_lua.Common.Float.{Float, as_u32}
use sni_lua.Common.{
  ℕ, ◌+◌, ◌*◌, ◌/◌, ◌%◌, ◌^◌, ◌<◌, ◌≤◌, ◌≡◌, arith, false, Bool-cases, inl, inr, if◌then◌else◌,
}
use sni_lua.Render.{rgba, from_argb}

unfoldable pub packed : (a r g b : ℕ) → ℕ
packed a r g b = a * 2 ^ 24 + r * 2 ^ 16 + g * 2 ^ 8 + b

module _ (fl : Float) where
  -- `f32::clamp`
  abbrev pub clamp : fl.F → fl.F → fl.F → fl.F
  clamp lo hi x = if fl.gt lo x then lo else if fl.gt x hi then hi else x

  -- a channel of a blend
  unfoldable pub channel : ℕ → ℕ → fl.F → ℕ
  channel ca cb t =
      let a = fl.of_nat ca in
      let b = fl.of_nat cb in
      as_u32 fl (clamp (fl.of_nat 0) (fl.of_nat 255) (fl.round (fl.add a (fl.mul (fl.sub b a) t))))

  unfoldable pub color_lerp : ℕ → ℕ → fl.F → ℕ
  unfolding channel packed
  color_lerp a b t =
      let u = clamp (fl.of_nat 0) (fl.of_nat 1) t in
      let lerp = λ (shift : ℕ). channel (a / 2 ^ shift % 256) (b / 2 ^ shift % 256) u in
      packed (lerp 24) (lerp 16) (lerp 8) (channel (a % 256) (b % 256) u)

-- A color packed by `gfx.argb` from four bytes is read back by the draw calls as the color of these
-- bytes, and any 32 bits are the packed channels of the color that they are read as.
pub argb-from_argb :
    (a r g b c : ℕ)
    → a < 256
    → r < 256
    → g < 256
    → b < 256
    → c < 2 ^ 32
    → (from_argb (packed a r g b) ≡ rgba r g b a)
      × (packed (from_argb c).a (from_argb c).r (from_argb c).g (from_argb c).b ≡ c)
unfolding from_argb packed rgba
argb-from_argb a r g b c ha hr hg hb hc =
    let n = a * 2 ^ 24 + r * 2 ^ 16 + g * 2 ^ 8 + b in
    let pa : n / 2 ^ 24 % 256 ≡ a = omega (arith, ha, hr, hg, hb) in
    let pr : n / 2 ^ 16 % 256 ≡ r = omega (arith, ha, hr, hg, hb) in
    let pg : n / 2 ^ 8 % 256 ≡ g = omega (arith, ha, hr, hg, hb) in
    let pb : n % 256 ≡ b = omega (arith, ha, hr, hg, hb) in
    (λ i. record { r = pr i; g = pg i; b = pb i; a = pa i }, omega (arith, hc))

module _ (fl : Float) (low : (x : fl.F) → fl.gt x (fl.of_nat 255) ≡ false → fl.trunc x ≤ 255)
    (top : fl.trunc (fl.of_nat 255) ≤ 255) (bottom : fl.trunc (fl.of_nat 0) ≤ 255) where
  clamp-IsByte : (x : fl.F) → fl.trunc (clamp fl (fl.of_nat 0) (fl.of_nat 255) x) ≤ 255
  clamp-IsByte x = elim (Bool-cases (fl.gt (fl.of_nat 0) x)) [
    | inl e ↦ rw e bottom
    | inr e ↦ elim (Bool-cases (fl.gt x (fl.of_nat 255))) [
      | inl q ↦ rw e (rw q top)
      | inr q ↦ rw e (rw q (low x q))
    ]
  ]

  channel-IsByte : (a b : ℕ) (t : fl.F) → channel fl a b t < 256
  unfolding channel
  channel-IsByte a b t =
      let x = fl.add (fl.of_nat a) (fl.mul (fl.sub (fl.of_nat b) (fl.of_nat a)) t) in
      omega (arith, clamp-IsByte (fl.round x))

  -- The blend of two packed colors is read as the color of the blended channels, whatever the
  -- position: no channel reaches into another. What is asked of the floats is that one that is not
  -- above 255 is truncated to a byte.
  pub color_lerp-channels :
      (a b : ℕ) (t : fl.F)
      → let u = clamp fl (fl.of_nat 0) (fl.of_nat 1) t in
        from_argb (color_lerp fl a b t)
        ≡ rgba
            (channel fl (from_argb a).r (from_argb b).r u)
            (channel fl (from_argb a).g (from_argb b).g u)
            (channel fl (from_argb a).b (from_argb b).b u)
            (channel fl (from_argb a).a (from_argb b).a u)
  unfolding color_lerp from_argb
  color_lerp-channels a b t =
      let u = clamp fl (fl.of_nat 0) (fl.of_nat 1) t in
      let ch = λ (s : ℕ). channel fl (a / 2 ^ s % 256) (b / 2 ^ s % 256) u in
      let byte = λ (s : ℕ). channel-IsByte (a / 2 ^ s % 256) (b / 2 ^ s % 256) u in
      (argb-from_argb (ch 24) (ch 16) (ch 8) (channel fl (a % 256) (b % 256) u) 0 (byte 24)
        (byte 16) (byte 8) (channel-IsByte (a % 256) (b % 256) u) (omega arith)).0
