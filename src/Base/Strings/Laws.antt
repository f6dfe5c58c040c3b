-- ===== src/Base/Strings/Laws.antt =====
-- Cutting a text at a separator, prefixes and suffixes.
use ecs_gatus_app.Base.{
  ℕ, zero, suc, ◌+◌, ◌-◌, ◌≤◌, ◌≡◌, ◌≢◌, refl, ap, subst, ◌∙◌, Bool, true, false, Option, none,
  some, List, [], ◌∷◌, ◌++◌, length, take, drop, ltb, arith, Bool-cases, Option-cases, inl, inr,
  length-append, length-drop,
}
use ecs_gatus_app.Base.Text.{Text, text_eq_refl, has_prefix, is_empty}
use ecs_gatus_app.Base.Strings.{
  has_suffix, with_first, cut, contains, split_by, split_fuel, replace_first,
}

pub append_assoc : (r s t : Text) → r ++ (s ++ t) ≡ (r ++ s) ++ t
append_assoc [] s t = refl
append_assoc (c ∷ r) s t = ap (◌∷◌ c) (append_assoc r s t)

pub has_prefix-append : (p s : Text) → has_prefix (p ++ s) p ≡ true
unfolding has_prefix
has_prefix-append [] [] = refl
has_prefix-append [] (c ∷ s) = refl
has_prefix-append (c ∷ p) s = ground (arith, has_prefix-append p s)

pub drop-append : (p s : Text) → drop (length p) (p ++ s) ≡ s
drop-append [] s = refl
drop-append (c ∷ p) s = drop-append p s

pub drop-append_plus : (p s : Text) (n : ℕ) → drop (length p + n) (p ++ s) ≡ drop n s
drop-append_plus [] s n = ap (λ k. drop k s) (omega arith)
drop-append_plus (c ∷ p) s n =
    let more : length (c ∷ p) + n ≡ suc (length p + n) = omega arith in
    ap (λ k. drop k (c ∷ (p ++ s))) more ∙ drop-append_plus p s n

pub take-append : (p s : Text) → take (length p) (p ++ s) ≡ p
take-append [] s = refl
take-append (c ∷ p) s = ap (◌∷◌ c) (take-append p s)

pub has_suffix-append : (s t : Text) → has_suffix (s ++ t) t ≡ true
unfolding has_suffix
has_suffix-append s t =
    let long : ltb (length (s ++ t)) (length t) ≡ false = ground (arith, length-append s t) in
    let at : length (s ++ t) - length t ≡ length s = omega (arith, length-append s t) in
    rw (long, at, drop-append s t) (text_eq_refl t)

has_prefix-length : (s p : Text) → has_prefix s p ≡ true → length p ≤ length s
unfolding has_prefix
has_prefix-length s [] h = omega arith
has_prefix-length [] (c ∷ p) h = cc
has_prefix-length (d ∷ s) (c ∷ p) h = ground (arith, has_prefix-length s p)

abbrev Parted : Text → ℕ → Option (Text × Text) → Type 0
Parted sep n none = Unit
Parted sep n (some (before, after)) = n ≡ length before + length sep + length after

Parted-with_first :
    (c : ℕ) (sep : Text) (n : ℕ) (o : Option (Text × Text))
    → Parted sep n o
    → Parted sep (suc n) (with_first c o)
unfolding with_first
Parted-with_first c sep n none h = tt
Parted-with_first c sep n (some (before, after)) h = omega arith

Parted-cut : (sep s : Text) → Parted sep (length s) (cut sep s)
unfolding cut
Parted-cut [] [] = omega arith
Parted-cut (d ∷ sep) [] = tt
Parted-cut sep (c ∷ s) = elim (Bool-cases (has_prefix (c ∷ s) sep)) [
  | inl here ↦
      let fits = has_prefix-length (c ∷ s) sep here in
      rw here (omega (arith, fits, length-drop (length sep) (c ∷ s)))
  | inr later ↦ rw later (Parted-with_first c sep (length s) (cut sep s) (Parted-cut sep s))
]

-- The parts and the separator make up the text.
pub length-cut :
    (sep s before after : Text)
    → cut sep s ≡ some (before, after)
    → length s ≡ length before + length sep + length after
length-cut sep s before after h = subst (Parted sep (length s)) h (Parted-cut sep s)

-- A separator at the front is the first occurrence.
pub cut-prefix : (sep s : Text) → cut sep (sep ++ s) ≡ some ([], s)
unfolding cut
cut-prefix [] [] = refl
cut-prefix [] (c ∷ s) = refl
cut-prefix (c ∷ sep) s =
    let here : has_prefix (c ∷ (sep ++ s)) (c ∷ sep) ≡ true = has_prefix-append (c ∷ sep) s in
    rw (here, drop-append sep s) refl

contains-cut : (s sep : Text) → contains s sep ≡ true → cut sep s ≢ none
unfolding contains
contains-cut s sep h absent =
    let none_found = ap (λ o. elim o as (λ x. Bool) [ none ↦ false | some parts ↦ true ]) absent in
    cc

pub replace_first-absent : (s old new : Text) → cut old s ≡ none → replace_first s old new ≡ s
unfolding replace_first
replace_first-absent s old new e = rw (e, replace_first) refl

pub replace_first-present :
    (s old new before after : Text)
    → cut old s ≡ some (before, after)
    → replace_first s old new ≡ before ++ (new ++ after)
unfolding replace_first
replace_first-present s old new before after e = rw (e, replace_first) refl

-- Splitting gives one part at least.
split_fuel-first :
    (fuel : ℕ) (s sep : Text)
    → (first : Text) × (rest : List Text) × (split_fuel fuel s sep ≡ first ∷ rest)
unfolding split_fuel
split_fuel-first zero s sep = (s, [], refl)
split_fuel-first (suc fuel) s sep = elim (Option-cases (cut sep s)) [
  | inl absent ↦ (s, [], rw (absent, split_fuel) refl)
  | inr ((before, after), there) ↦ (before, split_fuel fuel after sep, rw (there, split_fuel) refl)
]

cut-empty : (d : ℕ) (sep : Text) → cut (d ∷ sep) [] ≡ none
unfolding cut
cut-empty d sep = refl

-- A text that contains a separator, which is not empty, is split into two parts at least.
pub split_by-two :
    (s sep : Text)
    → is_empty sep ≡ false
    → contains s sep ≡ true
    → (first : Text) × (second : Text) × (rest : List Text) × (split_by s sep
        ≡ first ∷ second ∷ rest)
unfolding split_by split_fuel
split_by-two [] [] h k = cc
split_by-two [] (d ∷ sep) h k = absurd (contains-cut [] (d ∷ sep) k (cut-empty d sep))
split_by-two (c ∷ s) sep h k = elim (Option-cases (cut sep (c ∷ s))) [
  | inl absent ↦ absurd (contains-cut (c ∷ s) sep k absent)
  | inr ((before, after), there) ↦
      let (second, rest, e) = split_fuel-first (length s) after sep in
      (before, second, rest, rw (split_by, split_fuel, there, e) refl)
]

contains-cons : (c : ℕ) (s sep : Text) → contains s sep ≡ true → contains (c ∷ s) sep ≡ true
unfolding contains
contains-cons c s sep h = elim (Bool-cases (has_prefix (c ∷ s) sep)) [
  | inl here ↦ rw (contains, cut, here) refl
  | inr later ↦ elim (Option-cases (cut sep s)) [
    | inl absent ↦ absurd (contains-cut s sep h absent)
    | inr ((before, after), there) ↦ rw (contains, cut, later, there, with_first) refl
  ]
]

-- What is found in the second part of a text is found in the text.
pub contains-append : (s t sep : Text) → contains t sep ≡ true → contains (s ++ t) sep ≡ true
contains-append [] t sep h = h
contains-append (c ∷ s) t sep h = contains-cons c (s ++ t) sep (contains-append s t sep h)

-- What a text begins with is found in it.
pub contains-prefix : (sep s : Text) → contains (sep ++ s) sep ≡ true
unfolding contains
contains-prefix sep s = rw (contains, cut-prefix sep s) refl
