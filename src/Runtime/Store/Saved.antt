-- ===== src/Runtime/Store/Saved.antt =====
-- What a flush leaves in the file.
use sni_lua.Common.{
  ◌≡◌, refl, sym, ◌∙◌, subst, ◌⊎◌, Bool, true, false, List, [], ◌∷◌, Option, none, some,
  Option-cases, inl, inr, arith, Str,
}
use sni_lua.Runtime.Store.{
  Doc, lookup, Store, Parsed, object, loaded, new, bind, set, remove, replace, flush_if_dirty,
}

-- a store, and the content of the file that it is bound to
abbrev pub Disk : Type 0 → Type 0
Disk J = Store J × Option Str

pub data Op (J : Type 0) : Type 0 where
  sets : Str → J → Op J
  removes : Str → Op J
  replaces : Doc J → Op J
  flushes : Op J

module _ {J : Type 0} (parse : Str → Parsed J) (print : Doc J → Option Str) where
  -- the file after a write that succeeds
  abbrev pub written : Option (Str × Str) → Option Str → Option Str
  written none file = file
  written (some (path, text)) file = some text

  unfoldable pub step : Disk J → Op J → Disk J
  unfolding set remove replace flush_if_dirty
  step (s, file) (sets key v) = (set key v s, file)
  step (s, file) (removes key) = (remove key s, file)
  step (s, file) (replaces obj) = (replace obj s, file)
  step (s, file) flushes = ((flush_if_dirty print s).0, written (flush_if_dirty print s).1 file)

  unfoldable pub run : Disk J → List (Op J) → Disk J
  unfolding step
  run d [] = d
  run d (op ∷ ops) = run (step d op) ops

  -- A store that is not dirty has its document in its file: the file is what it was loaded from, or
  -- the print of it; unless it has no print.
  IsHeld : Doc J → Option Str → Type 0
  IsHeld doc file = (loaded parse file ≡ doc) ⊎ ((print doc ≡ none) ⊎ (print doc ≡ file))

  record IsSaved (d : Disk J) : Type 0 where
    bound : (p : Str) × (d.0.path ≡ some p)
    saved : d.0.dirty ≡ false → IsHeld d.0.doc d.1

  flush_fields :
      (doc : Doc J) (path : Option Str) (dirty : Bool) (file : Option Str)
      → let d : Disk J = (record { doc = doc; path = path; dirty = dirty }, file) in
        IsSaved d → IsSaved (step d flushes)
  unfolding step flush_if_dirty IsHeld
  flush_fields doc none dirty file v = ground (arith, v.bound.1)
  flush_fields doc (some p) false file v = v
  flush_fields doc (some p) true file v = elim (Option-cases (print doc)) [
    | inl e ↦ record { bound = (p, refl); saved = λ h. inr (inl e) }
    | inr (text, e) ↦ record { bound = (p, refl); saved = λ h. inr (inr (rw e refl)) }
  ]

  flushed :
      (doc : Doc J) (path : Option Str) (dirty : Bool) (file : Option Str)
      → (step (record { doc = doc; path = path; dirty = dirty }, file) flushes).0.dirty ≡ false
  unfolding step flush_if_dirty
  flushed doc path false file = refl
  flushed doc none true file = refl
  flushed doc (some p) true file = refl

  flushes-doc :
      (doc : Doc J) (path : Option Str) (dirty : Bool) (file : Option Str)
      → (step (record { doc = doc; path = path; dirty = dirty }, file) flushes).0.doc ≡ doc
  unfolding step flush_if_dirty
  flushes-doc doc path false file = refl
  flushes-doc doc none true file = refl
  flushes-doc doc (some p) true file = refl

  remove-IsSaved : (key : Str) (d : Disk J) → IsSaved d → IsSaved (step d (removes key))
  unfolding step remove
  remove-IsSaved key (s, file) v = elim (Option-cases (lookup key s.doc)) [
    | inl e ↦ rw (e, remove) v
    | inr (w, e) ↦ rw (e, remove) (record { bound = v.bound; saved = λ h. ground (arith, h) })
  ]

  step-IsSaved : (d : Disk J) (op : Op J) → IsSaved d → IsSaved (step d op)
  unfolding step set replace
  step-IsSaved (s, file) (sets key v) h = record { bound = h.bound; saved = λ e. ground (arith, e) }
  step-IsSaved (s, file) (removes key) h = remove-IsSaved key (s, file) h
  step-IsSaved (s, file) (replaces obj) h = record {
    bound = h.bound;
    saved = λ e. ground (arith, e);
  }
  step-IsSaved (s, file) flushes h = flush_fields s.doc s.path s.dirty file h

  run_of : (d : Disk J) (ops : List (Op J)) → IsSaved d → IsSaved (run d ops)
  unfolding run
  run_of d [] h = h
  run_of d (op ∷ ops) h = run_of (step d op) ops (step-IsSaved d op h)

  held-loaded :
      (doc : Doc J) (file : Option Str) (text : Str)
      → print doc ≡ some text
      → parse text ≡ object doc
      → IsHeld doc file
      → loaded parse file ≡ doc
  unfolding IsHeld loaded
  held-loaded doc file text p q (inl e) = e
  held-loaded doc file text p q (inr (inl e)) = ground (arith, sym e ∙ p)
  held-loaded doc file text p q (inr (inr e)) = rw (sym e ∙ p) (rw (loaded, q) refl)

-- From the binding to a file on, after any calls that end with a flush, binding to the file again
-- gives the document that the script has in memory, whatever the file held at first: if every write
-- succeeds, and if that document, the last one, prints to a text that parses to it. Nothing is asked of
-- the documents before.
pub flush-bind :
    {J : Type 0} (parse : Str → Parsed J) (print : Doc J → Option Str) (content : Option Str)
    (path text : Str) (ops : List (Op J))
    → let last = run parse print (bind parse content path new, content) ops in
      print last.0.doc ≡ some text
      → parse text ≡ object last.0.doc
      → let d = step parse print last flushes in (bind parse d.1 path new).doc ≡ last.0.doc
unfolding bind new IsHeld
flush-bind parse print content path text ops p q =
    let d = run parse print (bind parse content path new, content) ops in
    let v =
      run_of parse print (bind parse content path new, content) ops
        (record { bound = (path, refl); saved = λ h. inl refl }) in
    let s = d.0 in
    let same = flushes-doc parse print s.doc s.path s.dirty d.1 in
    held-loaded parse print s.doc (step parse print d flushes).1 text p q (
      subst (λ m. IsHeld parse print m (step parse print d flushes).1) same
        ((step-IsSaved parse print d flushes v).saved
          (flushed parse print s.doc s.path s.dirty d.1)))
