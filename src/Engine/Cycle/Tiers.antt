-- ===== src/Engine/Cycle/Tiers.antt =====
-- The two tiers of a cycle read different watches.
use sni_lua.Common.{
  ℕ, ◌≡◌, refl, sym, subst, ◌∙◌, Bool, false, List, [], ◌∷◌, map, Memᴰ, Permᴰ, All, All-retain, any,
  any-perm, retain, ◌==◌, Bool-cases, inl, inr, arith,
}
use sni_lua.Engine.Apply.Cycle.{Avoids, is_read-Avoids}
use sni_lua.Engine.Apply.Fresh.{Distinct, goes_by, is_read-restored}
use sni_lua.Engine.Split.Members.{restored-split_reads_to_budget}
use sni_lua.Engine.Split.{split_reads_to_budget}
use sni_lua.Watch.Coalesce.Groups.{restored-coalesce}
use sni_lua.Watch.Coalesce.Members.{wanted}
use sni_lua.Watch.Coalesce.{coalesce}
use sni_lua.Watch.{WatchHandle, InRange}

pub Distinct-retain :
    (p : WatchHandle → Bool) (ws : List WatchHandle) → Distinct ws → Distinct (retain p ws)
Distinct-retain p [] d = tt
Distinct-retain p (w ∷ ws) d = elim (Bool-cases (p w)) [
  | inl e ↦ rw e (All-retain _ p ws d.0, Distinct-retain p ws d.1)
  | inr e ↦ rw e (Distinct-retain p ws d.1)
]

unnamed :
    (id : ℕ) (ws : List WatchHandle)
    → All (λ v. (v.id == id) ≡ false) ws
    → any (goes_by id) (map wanted ws) ≡ false
unnamed id [] h = refl
unnamed id (v ∷ ws) h = ground (arith, h.0, unnamed id ws h.1)

different : (a b : ℕ) → (a == b) ≡ false → (b == a) ≡ false
different a b h = ground arith

Memᴰ-id :
    (w v : WatchHandle) (ws : List WatchHandle)
    → All (λ u. (u.id == v.id) ≡ false) ws
    → Memᴰ w ws
    → (v.id == w.id) ≡ false
Memᴰ-id w v [] h m = elim m [ ]
Memᴰ-id w v (u ∷ ws) h (Memᴰ.head e) =
    different w.id v.id (subst (λ x. (x.id == v.id) ≡ false) (sym e) h.0)
Memᴰ-id w v (u ∷ ws) h (Memᴰ.tail m) = Memᴰ-id w v ws h.1 m

-- A watch that is not kept shares its id with none that is.
pub retained_out :
    (p : WatchHandle → Bool) (w : WatchHandle) (ws : List WatchHandle)
    → Distinct ws
    → Memᴰ w ws
    → p w ≡ false
    → any (goes_by w.id) (map wanted (retain p ws)) ≡ false
retained_out p w [] d m out = elim m [ ]
retained_out p w (v ∷ ws) d (Memᴰ.head e) out =
    let out' : p v ≡ false = subst (λ x. p x ≡ false) e out in
    rw out' (
      subst (λ (x : WatchHandle). any (goes_by x.id) (map wanted (retain p ws)) ≡ false) (sym e)
        (unnamed v.id (retain p ws) (All-retain _ p ws d.0)))
retained_out p w (v ∷ ws) d (Memᴰ.tail m) out =
    let rest = retained_out p w ws d.1 m out in
    let other = Memᴰ-id w v ws d.0 m in
    elim (Bool-cases (p v)) [ inl e ↦ rw (e, other, rest) | inr e ↦ rw (e, rest) ]

pub coalesce-Avoids :
    (id : ℕ) (ws : List WatchHandle) (gap : ℕ)
    → All (λ v. InRange v.region) ws
    → any (goes_by id) (map wanted ws) ≡ false
    → All (Avoids id) (coalesce ws gap)
coalesce-Avoids id ws gap hr h = is_read-Avoids id (coalesce ws gap) (
    is_read-restored id (coalesce ws gap)
    ∙ sym (any-perm (goes_by id) (restored-coalesce ws gap hr))
    ∙ h)

pub split-Avoids :
    (id : ℕ) (ws : List WatchHandle) (gap budget : ℕ)
    → All (λ v. InRange v.region) ws
    → any (goes_by id) (map wanted ws) ≡ false
    → All (Avoids id) (split_reads_to_budget (coalesce ws gap) budget)
split-Avoids id ws gap budget hr h =
    is_read-Avoids id (split_reads_to_budget (coalesce ws gap) budget) (
      is_read-restored id (split_reads_to_budget (coalesce ws gap) budget)
      ∙ sym (
          any-perm (goes_by id) (
            Permᴰ.trans (restored-coalesce ws gap hr)
              (restored-split_reads_to_budget (coalesce ws gap) budget)))
      ∙ h)
