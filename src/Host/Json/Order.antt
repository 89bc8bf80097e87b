-- ===== src/Host/Json/Order.antt =====
-- An object does not depend on the order in which its entries are inserted.
use sni_lua.Common.{
  ◌≡◌, ◌≢◌, refl, sym, ap, ◌∙◌, subst, true, [], ◌∷◌, Permᴰ, All, All-perm, Option, some, Str,
  str_lt, str_eq_refl, str_lt_irrefl, str_lt_trans, str_lt_total, str_lt_asym, str_lt-str_eq, inl,
  inr,
}
use sni_lua.Common.Int.{ℤ}
use sni_lua.Host.Json.{Key, name, JsonValue, JsonFields, done, field, insert, Rows, fields_of}

module _ {D : Type 0} where
  insert-below :
      (k m : Str) (j w : JsonValue D) (fs : JsonFields D)
      → str_lt k m ≡ true
      → insert k j (field m w fs) ≡ field k j (field m w fs)
  unfolding insert
  insert-below k m j w fs h = rw h refl

  insert-same :
      (k : Str) (j w : JsonValue D) (fs : JsonFields D) → insert k j (field k w fs) ≡ field k j fs
  unfolding insert
  insert-same k j w fs = rw (str_lt_irrefl k, str_eq_refl k) refl

  pub insert-above :
      (m k : Str) (j w : JsonValue D) (fs : JsonFields D)
      → str_lt m k ≡ true
      → insert k j (field m w fs) ≡ field m w (insert k j fs)
  unfolding insert
  insert-above m k j w fs h = rw (str_lt_asym m k h, (str_lt-str_eq m k h).0) refl

  -- the lower of two keys, before the first field that is not lower
  insert-first :
      (k l : Str) (j i : JsonValue D) (fs : JsonFields D)
      → str_lt k l ≡ true
      → insert l i (field k j fs) ≡ field k j (insert l i fs)
  insert-first k l j i fs h = insert-above k l i j fs h

  insert_below_inserted :
      (k l m : Str) (j i w : JsonValue D) (fs : JsonFields D)
      → str_lt k l ≡ true
      → str_lt k m ≡ true
      → insert k j (insert l i (field m w fs)) ≡ field k j (insert l i (field m w fs))
  insert_below_inserted k l m j i w fs h g = elim (str_lt_total l m) [
    | inl e ↦
        let q = insert-below l m i w fs e in
        subst (λ x. insert k j x ≡ field k j x) (sym q) (insert-below k l j i (field m w fs) h)
    | inr (inl e) ↦
        subst (λ n. insert k j (insert l i (field n w fs)) ≡ field k j (insert l i (field n w fs)))
          e
          (subst (λ x. insert k j x ≡ field k j x) (sym (insert-same l i w fs))
            (insert-below k l j i fs h))
    | inr (inr e) ↦
        subst (λ x. insert k j x ≡ field k j x) (sym (insert-above m l i w fs e))
          (insert-below k m j w (insert l i fs) g)
  ]

  insert_comm_lt :
      (k l : Str) (j i : JsonValue D) (fs : JsonFields D)
      → str_lt k l ≡ true
      → insert l i (insert k j fs) ≡ insert k j (insert l i fs)
  unfolding insert
  insert_comm_lt k l j i done h = insert-above k l i j done h ∙ sym (insert-below k l j i done h)
  insert_comm_lt k l j i (field m w fs) h = elim (str_lt_total k m) [
    | inl e ↦
        ap (insert l i) (insert-below k m j w fs e)
        ∙ insert-above k l i j (field m w fs) h
        ∙ sym (insert_below_inserted k l m j i w fs h e)
    | inr (inl e) ↦
        subst (λ n. insert l i (insert k j (field n w fs)) ≡ insert k j (insert l i (field n w fs)))
          e
          (ap (insert l i) (insert-same k j w fs)
            ∙ insert-above k l i j fs h
            ∙ sym (insert-same k j w (insert l i fs))
            ∙ sym (ap (insert k j) (insert-above k l i w fs h)))
    | inr (inr e) ↦
        let f = str_lt_trans m k l e h in
        ap (insert l i) (insert-above m k j w fs e)
        ∙ insert-above m l i w (insert k j fs) f
        ∙ ap (λ r. field m w r) (insert_comm_lt k l j i fs h)
        ∙ sym (insert-above m k j w (insert l i fs) e)
        ∙ sym (ap (insert k j) (insert-above m l i w fs f))
  ]

  -- Fields with different keys may be inserted in either order.
  pub insert_comm :
      (k l : Str) (j i : JsonValue D) (fs : JsonFields D)
      → k ≢ l
      → insert l i (insert k j fs) ≡ insert k j (insert l i fs)
  insert_comm k l j i fs h = elim (str_lt_total k l) [
    | inl e ↦ insert_comm_lt k l j i fs e
    | inr (inl e) ↦ absurd (h e)
    | inr (inr e) ↦ sym (insert_comm_lt l k i j fs e)
  ]

  -- a row whose key is a string and whose value converts
  abbrev pub IsNamed : Key D × Option (JsonValue D) → Type 0
  IsNamed r = (k : Str) × (j : JsonValue D) × (r ≡ (name k, some j))

  abbrev pub Differ : Key D × Option (JsonValue D) → Key D × Option (JsonValue D) → Type 0
  Differ r s = r.0 ≢ s.0

  abbrev pub Apart : Rows D → Type 0
  Apart [] = Unit {0}
  Apart (r ∷ rs) = All (Differ r) rs × Apart rs

  Apart-perm : {rs ss : Rows D} → Permᴰ rs ss → Apart rs → Apart ss
  Apart-perm Permᴰ.nil a = tt
  Apart-perm (Permᴰ.cons {l₂} e p) a =
      (subst (λ r. All (Differ r) l₂) e (All-perm _ p a.0), Apart-perm p a.1)
  Apart-perm (Permᴰ.swap {a} {b} {b'} {l} e f) h =
      subst (λ r. Apart (r ∷ b' ∷ l)) f
        (subst (λ s. Apart (b ∷ s ∷ l)) e (((λ q. h.0.0 (sym q)), h.1.0), (h.0.1, h.1.1)))
  Apart-perm (Permᴰ.trans p q) a = Apart-perm q (Apart-perm p a)

  module _ (int_text : ℤ → Str) (num_text : D → Str) (order : Rows D → Rows D) where
    abbrev built : Rows D → JsonFields D → Option (JsonFields D)
    built = fields_of int_text num_text order

    two_rows :
        (r s : Key D × Option (JsonValue D)) (rs : Rows D) (acc : JsonFields D)
        → IsNamed r
        → IsNamed s
        → Differ r s
        → built (r ∷ s ∷ rs) acc ≡ built (s ∷ r ∷ rs) acc
    unfolding fields_of
    two_rows r s rs acc (k, j, e) (l, i, f) d =
        subst (λ r. built (r ∷ s ∷ rs) acc ≡ built (s ∷ r ∷ rs) acc) (sym e)
          (subst
            (λ s. built ((name k, some j) ∷ s ∷ rs) acc ≡ built (s ∷ (name k, some j) ∷ rs) acc)
            (sym f)
            (ap (built rs) (
              insert_comm k l j i acc
                (λ q. d (ap (λ x. x.0) e ∙ ap (λ t. name t) q ∙ sym (ap (λ x. x.0) f))))))

    one_row :
        (r : Key D × Option (JsonValue D)) (rs ss : Rows D) (acc : JsonFields D)
        → IsNamed r
        → ((acc : JsonFields D) → built rs acc ≡ built ss acc)
        → built (r ∷ rs) acc ≡ built (r ∷ ss) acc
    unfolding fields_of
    one_row r rs ss acc (k, j, e) h =
        subst (λ r. built (r ∷ rs) acc ≡ built (r ∷ ss) acc) (sym e) (h (insert k j acc))

    -- Rows with different string keys give one object, whatever their order.
    pub fields_of-perm :
        {rs ss : Rows D}
        → Permᴰ rs ss
        → All IsNamed rs
        → Apart rs
        → (acc : JsonFields D) → built rs acc ≡ built ss acc
    unfolding fields_of
    fields_of-perm Permᴰ.nil n a acc = refl
    fields_of-perm (Permᴰ.cons {a = r} {l₁} {l₂} e p) n a acc =
        one_row r l₁ l₂ acc n.0 (fields_of-perm p n.1 a.1) ∙ ap (λ r. built (r ∷ l₂) acc) e
    fields_of-perm (Permᴰ.swap {a = r} {b = s} {a'} {l} e f) n a acc =
        two_rows r s l acc n.0 n.1.0 a.0.0
        ∙ ap (λ s. built (s ∷ r ∷ l) acc) f
        ∙ ap (λ r. built (a' ∷ r ∷ l) acc) e
    fields_of-perm (Permᴰ.trans p q) n a acc =
        fields_of-perm p n a acc ∙ fields_of-perm q (All-perm IsNamed p n) (Apart-perm p a) acc
