-- ===== src/Jsonpath/Panics.antt =====
-- A key with one index, `name[digits]`: what it extracts, and where it panics.
use ecs_gatus_app.Base.{
  ℕ, suc, ◌+◌, ◌-◌, ◌≡◌, ◌≢◌, refl, ap, ◌∙◌, Bool, true, false, none, some, List, [], ◌∷◌, ◌++◌,
  length, take, drop, All, ◌==◌, arith, Bool-cases, not, ◌&&◌, Option-cases, inl, inr,
}
use ecs_gatus_app.Base.Int.{ℤ, pos}
use ecs_gatus_app.Base.Text.{Text, codes, is_empty, atoi}
use ecs_gatus_app.Base.Strings.{has_suffix, contains}
use ecs_gatus_app.Base.Strings.Laws.{
  append_assoc, has_suffix-append, take-append, drop-append_plus, contains-append, contains-prefix,
}
use ecs_gatus_app.Base.Outcome.{ok, err}
use ecs_gatus_app.Gontext.{Value, null, boolean, int64, float64, string, slice, object}
use ecs_gatus_app.Golib.{Golib}
use ecs_gatus_app.Jsonpath.{
  Extraction, extracted, panics, Evaluation, value_of, error_of, panic, find_brackets, keys_of,
  indexed_value, extract_indexed, extract_fuel, extract_value, walk_value, walk_fuel, walk,
  looks_like_array, eval,
}

-- No separator of a path.
abbrev pub IsPlain : ℕ → Type 0
IsPlain c = (c ≢ b'.') × (c ≢ b'[') × (c ≢ b']')

abbrev pub indexed_key : Text → Text → Text
indexed_key name ds = name ++ (b'[' ∷ (ds ++ codes "]"))

find_brackets-plain :
    (name rest : Text) (i start depth : ℕ)
    → All IsPlain name
    → find_brackets (name ++ rest) i start depth ≡ find_brackets rest (length name + i) start depth
unfolding find_brackets
find_brackets-plain [] rest i start depth h =
    ap (λ k. find_brackets rest k start depth) (omega arith)
find_brackets-plain (c ∷ name) rest i start depth ((dot, opening, closing), h) =
    let later = find_brackets-plain name rest (i + 1) start depth h in
    let not_opening : (c == b'[') ≡ false = ground arith in
    let not_closing : (c == b']') ≡ false = ground arith in
    rw (not_opening, not_closing) (later ∙ ap (λ k. find_brackets rest k start depth) (omega arith))

find_brackets-indexed_key :
    (name ds : Text)
    → All IsPlain name
    → All IsPlain ds
    → find_brackets (indexed_key name ds) 0 0 0 ≡ some (length name, length name + 1 + length ds)
unfolding find_brackets
find_brackets-indexed_key name ds h k =
    let in_name = find_brackets-plain name (b'[' ∷ (ds ++ codes "]")) 0 0 0 h in
    let in_index = find_brackets-plain ds (codes "]") (length name + 0 + 1) (length name + 0) 1 k in
    let first : length name + 0 ≡ length name = omega arith in
    let last : length ds + (length name + 1) ≡ length name + 1 + length ds = omega arith in
    in_name ∙ (in_index ∙ ap (λ p. some p) (rw (first, last) refl))

contains-indexed_key : (name ds : Text) → contains (indexed_key name ds) (codes "[") ≡ true
contains-indexed_key name ds =
    contains-append name (b'[' ∷ (ds ++ codes "]")) (codes "[")
      (contains-prefix (codes "[") (ds ++ codes "]"))

has_suffix-indexed_key : (name ds : Text) → has_suffix (indexed_key name ds) (codes "]") ≡ true
has_suffix-indexed_key name ds =
    rw (append_assoc name (b'[' ∷ ds) (codes "]"))
      (has_suffix-append (name ++ b'[' ∷ ds) (codes "]"))

-- The text between the brackets, and what is behind them.
index-indexed_key :
    (name ds : Text)
    → take
        (length name + 1 + length ds - length name - 1)
        (drop (length name + 1) (indexed_key name ds))
      ≡ ds
index-indexed_key name ds =
    let count : length name + 1 + length ds - length name - 1 ≡ length ds = omega arith in
    rw (count, drop-append_plus name (b'[' ∷ (ds ++ codes "]")) 1) (take-append ds (codes "]"))

behind-indexed_key :
    (name ds : Text) → drop (length name + 1 + length ds + 1) (indexed_key name ds) ≡ []
behind-indexed_key name ds =
    let count : length name + 1 + length ds + 1 ≡ length name + suc (length ds + 1) = omega arith in
    rw (count, drop-append_plus name (b'[' ∷ (ds ++ codes "]")) (suc (length ds + 1)))
      (drop-append_plus ds (codes "]") 1)

-- A key with one index goes by the number between its brackets, where there is one.
pub extract_value-indexed_key :
    (name ds : Text) (v : Value)
    → All IsPlain name
    → All IsPlain ds
    → extract_value (indexed_key name ds) v ≡ elim (atoi ds) [
      | none ↦ extracted null
      | some index ↦ indexed_value name index (λ w. extracted w) v
    ]
unfolding extract_value extract_fuel extract_indexed
extract_value-indexed_key name ds v h k =
    rw
      (
        has_suffix-indexed_key name ds,
        contains-indexed_key name ds,
        extract_indexed,
        find_brackets-indexed_key name ds h k,
        index-indexed_key name ds,
      )
      elim (Option-cases (atoi ds)) [
        | inl absent ↦ rw absent refl
        | inr (index, there) ↦
            rw (there, take-append name (b'[' ∷ (ds ++ codes "]")), behind-indexed_key name ds) refl
      ]

keys_of-plain :
    (name rest key : Text) (keys : List Text) (depth : ℤ)
    → All IsPlain name
    → keys_of rest depth ≡ key ∷ keys
    → keys_of (name ++ rest) depth ≡ (name ++ key) ∷ keys
unfolding keys_of
keys_of-plain [] rest key keys depth h k = k
keys_of-plain (c ∷ name) rest key keys depth ((dot, opening, closing), h) k =
    let not_dot : (c == b'.') ≡ false = ground arith in
    let not_opening : (c == b'[') ≡ false = ground arith in
    let not_closing : (c == b']') ≡ false = ground arith in
    rw (not_dot, not_opening, not_closing, keys_of-plain name rest key keys depth h k) refl

keys_of-indexed_key :
    (name ds : Text)
    → All IsPlain name
    → All IsPlain ds
    → keys_of (indexed_key name ds) (pos 0) ≡ indexed_key name ds ∷ []
unfolding keys_of
keys_of-indexed_key name ds h k =
    let in_index = keys_of-plain ds (codes "]") (codes "]") [] (pos 1) k refl in
    keys_of-plain name (b'[' ∷ (ds ++ codes "]")) (b'[' ∷ (ds ++ codes "]")) [] (pos 0) h
      (rw in_index refl)

-- A value that is neither null nor an object.
abbrev pub lacks_fields : Value → Bool
lacks_fields null = false
lacks_fields (object m) = false
lacks_fields other = true

indexed_value-panics :
    (name : Text) (index : ℤ) (nested : Value → Extraction) (v : Value)
    → is_empty name ≡ false
    → lacks_fields v ≡ true
    → indexed_value name index nested v ≡ panics
unfolding indexed_value
indexed_value-panics [] index nested v h k = cc
indexed_value-panics (c ∷ name) index nested null h k = cc
indexed_value-panics (c ∷ name) index nested (object m) h k = cc
indexed_value-panics (c ∷ name) index nested (boolean b) h k = refl
indexed_value-panics (c ∷ name) index nested (int64 n) h k = refl
indexed_value-panics (c ∷ name) index nested (float64 f) h k = refl
indexed_value-panics (c ∷ name) index nested (string s) h k = refl
indexed_value-panics (c ∷ name) index nested (slice vs) h k = refl

-- On a document that is neither null nor an object, evaluating a path of one key with a name and a
-- number between brackets panics. Neither name nor number has a dot or a bracket.
pub eval-panics :
    (lib : Golib) (name ds b : Text) (index : ℤ) (v : Value)
    → All IsPlain name
    → All IsPlain ds
    → is_empty name ≡ false
    → atoi ds ≡ some index
    → lib.unmarshal b ≡ ok v
    → lacks_fields v ≡ true
    → eval lib (indexed_key name ds) b ≡ panic
unfolding eval walk walk_fuel walk_value
eval-panics lib [] ds b index v h k named number document lacks = cc
eval-panics lib (c ∷ name) ds b index v h k named number document lacks =
    let keys = keys_of-indexed_key (c ∷ name) ds h k in
    let value = extract_value-indexed_key (c ∷ name) ds v h k in
    let panicked = indexed_value-panics (c ∷ name) index (λ w. extracted w) v named lacks in
    rw (document, keys, value, number, panicked) refl

abbrev pub is_answer : Evaluation → Bool
is_answer (value_of text n) = true
is_answer (error_of e) = true
is_answer other = false

-- A text that is no JSON is not walked through: there is a value or an error.
pub eval_without_document :
    (lib : Golib) (path b e : Text) → lib.unmarshal b ≡ err e → is_answer (eval lib path b) ≡ true
unfolding eval
eval_without_document lib path b e h =
    elim (Bool-cases (is_empty path && not (looks_like_array b))) [
      | inl whole ↦ rw whole
      | inr walked ↦ rw (walked, h)
    ]
