-- ===== src/Gontext/Access.antt =====
-- Get after Set.
use ecs_gatus_app.Base.{
  ℕ, ◌==◌, ◌≡◌, refl, ap, ◌∙◌, Option, none, some, List, [], ◌∷◌, if◌then◌else◌, arith, Bool-cases,
  inl, inr,
}
use ecs_gatus_app.Base.Text.{Text, text_eq, text_eq_iff, text_eq_refl, split}
use ecs_gatus_app.Base.Outcome.{ok}
use ecs_gatus_app.Gontext.{
  Value, Entries, Gontext, object, end, entry, entry_of, set_entry, get_step, get_parts, set_parts,
  submap, get, set, found,
}

entry_of-set_entry :
    (k j : Text) (v : Value) (m : Entries)
    → entry_of j (set_entry k v m) ≡ (if text_eq k j then some v else entry_of j m)
unfolding entry_of set_entry
entry_of-set_entry k j v end = refl
entry_of-set_entry k j v (entry i w m) =
    ground (arith, text_eq_iff k j, text_eq_iff i k, text_eq_iff i j, entry_of-set_entry k j v m)

-- One round of the loop of Get.
abbrev follow : List Text → Option Value → Option Value
follow ps none = none
follow ps (some v) = get_parts ps v

get_parts-object :
    (p : Text) (ps : List Text) (m : Entries)
    → get_parts (p ∷ ps) (object m) ≡ follow ps (entry_of p m)
unfolding get_parts
get_parts-object p ps m = ground arith

get_parts-set_parts :
    (p : Text) (ps : List Text) (v : Value) (m : Entries)
    → get_parts (p ∷ ps) (object (set_parts (p ∷ ps) v m)) ≡ some v
unfolding set_parts
get_parts-set_parts p [] v m =
    rw (get_parts-object p [], entry_of-set_entry p p, text_eq_refl p) (unfold get_parts in refl)
get_parts-set_parts p (q ∷ ps) v m =
    rw (get_parts-object p (q ∷ ps), entry_of-set_entry p p, text_eq_refl p)
      (get_parts-set_parts q ps v (submap (entry_of p m)))

-- Two paths part at some key: neither leads to or through the other's value.
abbrev pub Diverge : List Text → List Text → Type 0
Diverge [] qs = ⊥
Diverge (p ∷ ps) [] = ⊥
Diverge (p ∷ ps) (q ∷ qs) = if text_eq p q then Diverge ps qs else Unit

-- In an empty map no path is found.
get_parts-submap :
    (q : Text) (qs : List Text) (o : Option Value)
    → get_parts (q ∷ qs) (object (submap o)) ≡ follow (q ∷ qs) o
unfolding get_parts get_step entry_of
get_parts-submap q qs none = refl
get_parts-submap q qs (some (object m)) = refl
get_parts-submap q qs (some other) = refl

get_parts-set_parts_ne :
    (p : Text) (ps : List Text) (q : Text) (qs : List Text) (v : Value) (m : Entries)
    → Diverge (p ∷ ps) (q ∷ qs)
    → get_parts (q ∷ qs) (object (set_parts (p ∷ ps) v m)) ≡ get_parts (q ∷ qs) (object m)
unfolding set_parts
get_parts-set_parts_ne p [] q qs v m d =
    rw (get_parts-object q qs (set_entry p v m), get_parts-object q qs m, entry_of-set_entry p q)
      (elim (Bool-cases (text_eq p q)) [ inl same ↦ absurd (rw same at d) | inr apart ↦ rw apart ])
get_parts-set_parts_ne p (p' ∷ ps) q [] v m d = elim (Bool-cases (text_eq p q)) [
  | inl same ↦ absurd (rw same at d)
  | inr apart ↦ rw (
    get_parts-object q [] (set_entry p _ m),
    get_parts-object q [] m,
    entry_of-set_entry p q,
    apart,
  )
]
get_parts-set_parts_ne p (p' ∷ ps) q (q' ∷ qs) v m d = elim (Bool-cases (text_eq p q)) [
  | inl same ↦
      rw
        (
          get_parts-object q (q' ∷ qs) (set_entry p _ m),
          get_parts-object q (q' ∷ qs) m,
          entry_of-set_entry p q,
          same,
        )
        (get_parts-set_parts_ne p' ps q' qs v (submap (entry_of p m)) (rw same at d)
          ∙ get_parts-submap q' qs (entry_of p m)
          ∙ ap (λ k. follow (q' ∷ qs) (entry_of k m)) ((text_eq_iff p q).0 same))
  | inr apart ↦ rw (
    get_parts-object q (q' ∷ qs) (set_entry p _ m),
    get_parts-object q (q' ∷ qs) m,
    entry_of-set_entry p q,
    apart,
  )
]

split-cons : (c : ℕ) (s : Text) → (p : Text) × (ps : List Text) × (split c s ≡ p ∷ ps)
unfolding split
split-cons c [] = ([], [], refl)
split-cons c (x ∷ s) =
    let (p, ps, e) = split-cons c s in
    elim (Bool-cases (x == c)) [
      | inl sep ↦ ([], split c s, rw sep)
      | inr other ↦ (x ∷ p, ps, rw (other, e))
    ]

-- What Set stores under a path, Get returns under it, whatever was there before.
pub get-set : (path : Text) (v : Value) (g : Gontext) → get path (set path v g) ≡ ok v
unfolding get set
get-set path v g =
    let (p, ps, e) = split-cons b'.' path in
    let stored : get_parts (split b'.' path) (object (set_parts (split b'.' path) v g.values))
        ≡ some v =
      rw e (get_parts-set_parts p ps v g.values) in
    ap (found path) stored

-- Set leaves every path alone that parts from the given one at some key: Get returns the same
-- value or error for it.
pub get-set_ne :
    (path other : Text) (v : Value) (g : Gontext)
    → Diverge (split b'.' path) (split b'.' other)
    → get other (set path v g) ≡ get other g
unfolding get set
get-set_ne path other v g d =
    let (p, ps, e) = split-cons b'.' path in
    let (q, qs, f) = split-cons b'.' other in
    ap (found other) (rw (e, f) (get_parts-set_parts_ne p ps q qs v g.values (rw (e, f) at d)))
