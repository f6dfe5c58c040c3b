-- ===== src/Jsonpath/Terminates.antt =====
-- The fuel of extractValue and of walk.
use ecs_gatus_app.Base.{
  ℕ, zero, suc, ◌+◌, ◌-◌, ◌<◌, ◌≡◌, refl, ap, Bool, true, false, ◌&&◌, [], ◌∷◌, ◌++◌, length, take,
  drop, ◌==◌, length-drop, arith, Bool-cases, Option-cases, inl, inr, length-append,
}
use ecs_gatus_app.Base.Int.{ℤ, pos, negsuc}
use ecs_gatus_app.Base.Text.{Text, codes, atoi, text_eq, text_eq_refl}
use ecs_gatus_app.Base.Strings.{cut, replace_first, has_suffix, contains}
use ecs_gatus_app.Base.Strings.Laws.{length-cut, replace_first-absent, replace_first-present}
use ecs_gatus_app.Gontext.{
  Value, Values, entry_of, null, boolean, int64, float64, string, slice, object,
}
use ecs_gatus_app.Base.Outcome.{Outcome-cases}
use ecs_gatus_app.Golib.{Golib}
use ecs_gatus_app.Jsonpath.{
  Extraction, extracted, panics, unended, find_brackets, as_slice, item_of, at_index, non_nil,
  field_of, plain_value, indexed_value, after_brackets, extract_indexed, extract_fuel,
  extract_value, Evaluation, out_of_fuel, first_key, second_key, keys_of, walk_value, walk_fuel,
  walk,
}

-- The fuel has not run out.
abbrev pub has_ended : Extraction → Bool
has_ended unended = false
has_ended other = true

abbrev pub has_answered : Evaluation → Bool
has_answered out_of_fuel = false
has_answered other = true

at_index-ended :
    (vs : Values) (i : ℤ) (inner : Value → Extraction)
    → ((v : Value) → has_ended (inner v) ≡ true)
    → has_ended (at_index vs i inner) ≡ true
unfolding at_index
at_index-ended vs (negsuc n) inner h = refl
at_index-ended vs (pos n) inner h = elim (Option-cases (item_of vs n)) [
  | inl absent ↦ rw (at_index, absent)
  | inr (v, there) ↦ rw (at_index, there) (h v)
]

non_nil-ended :
    (v : Value) (inner : Value → Extraction)
    → ((w : Value) → has_ended (inner w) ≡ true)
    → has_ended (non_nil v inner) ≡ true
unfolding non_nil
non_nil-ended null inner h = refl
non_nil-ended (boolean b) inner h = h (boolean b)
non_nil-ended (int64 n) inner h = h (int64 n)
non_nil-ended (float64 f) inner h = h (float64 f)
non_nil-ended (string s) inner h = h (string s)
non_nil-ended (slice vs) inner h = h (slice vs)
non_nil-ended (object m) inner h = h (object m)

field_of-ended :
    (k : Text) (v : Value) (inner : Value → Extraction)
    → ((w : Value) → has_ended (inner w) ≡ true)
    → has_ended (field_of k v inner) ≡ true
unfolding field_of
field_of-ended k null inner h = refl
field_of-ended k (boolean b) inner h = refl
field_of-ended k (int64 n) inner h = refl
field_of-ended k (float64 f) inner h = refl
field_of-ended k (string s) inner h = refl
field_of-ended k (slice vs) inner h = refl
field_of-ended k (object m) inner h = elim (Option-cases (entry_of k m)) [
  | inl absent ↦ rw (field_of, absent)
  | inr (v, there) ↦ rw (field_of, there) (non_nil-ended v inner h)
]

indexed_value-ended :
    (name : Text) (i : ℤ) (nested : Value → Extraction) (v : Value)
    → ((w : Value) → has_ended (nested w) ≡ true)
    → has_ended (indexed_value name i nested v) ≡ true
unfolding indexed_value
indexed_value-ended [] i nested v h = at_index-ended (as_slice v) i nested h
indexed_value-ended (c ∷ name) i nested v h =
    field_of-ended (c ∷ name) v _ λ w. at_index-ended (as_slice w) i nested h

after_brackets-ended :
    (deeper : Text → Value → Extraction) (rest : Text) (v : Value)
    → (0 < length rest → has_ended (deeper rest v) ≡ true)
    → has_ended (after_brackets deeper rest v) ≡ true
unfolding after_brackets
after_brackets-ended deeper [] v h = refl
after_brackets-ended deeper (c ∷ rest) v h = elim (Bool-cases (c == b'[')) [
  | inl more ↦ rw more (h (omega arith))
  | inr last ↦ rw last
]

extract_indexed-ended :
    (deeper : Text → Value → Extraction) (key : Text) (v : Value)
    → ((rest : Text) (w : Value) → length rest < length key → has_ended (deeper rest w) ≡ true)
    → has_ended (extract_indexed deeper key v) ≡ true
unfolding extract_indexed
extract_indexed-ended deeper key v h = elim (Option-cases (find_brackets key 0 0 0)) [
  | inl absent ↦ rw (extract_indexed, absent)
  | inr ((start, last), there) ↦
      elim (Option-cases (atoi (take (last - start - 1) (drop (start + 1) key)))) [
        | inl no_number ↦ rw (extract_indexed, there, no_number)
        | inr (index, number) ↦
            rw (extract_indexed, there, number)
              (indexed_value-ended (take start key) index _ v λ w.
                after_brackets-ended deeper (drop (last + 1) key) w
                  λ more. h (drop (last + 1) key) w (omega (arith, length-drop (last + 1) key)))
      ]
]

plain_value-ended : (key : Text) (v : Value) → has_ended (plain_value key v) ≡ true
unfolding plain_value
plain_value-ended key null = refl
plain_value-ended key (boolean b) = refl
plain_value-ended key (int64 n) = refl
plain_value-ended key (float64 f) = refl
plain_value-ended key (string s) = refl
plain_value-ended key (slice vs) = refl
plain_value-ended key (object m) = elim (Option-cases (entry_of key m)) [
  | inl absent ↦ rw (plain_value, absent)
  | inr (v, there) ↦ rw (plain_value, there)
]

-- extractValue ends when there is a round for each character of the key and one more.
pub extract_fuel-ended :
    (fuel : ℕ) (key : Text) (v : Value)
    → length key < fuel
    → has_ended (extract_fuel fuel key v) ≡ true
unfolding extract_fuel
extract_fuel-ended zero key v h = absurd (omega arith)
extract_fuel-ended (suc fuel) key v h =
    elim (Bool-cases (has_suffix key (codes "]") && contains key (codes "["))) [
      | inl indexed ↦ rw indexed (
          extract_indexed-ended (extract_fuel fuel) key v
            λ rest w shorter. extract_fuel-ended fuel rest w (omega arith))
      | inr plain ↦ rw plain (plain_value-ended key v)
    ]

-- Taking out a key with its dot leaves the path alone or makes it shorter.
shorter_path :
    (path key : Text)
    → text_eq path (replace_first path (key ++ b'.' ∷ []) []) ≡ false
    → length (replace_first path (key ++ b'.' ∷ []) []) < length path
shorter_path path key h = elim (Option-cases (cut (key ++ b'.' ∷ []) path)) [
  | inl absent ↦
      let unchanged = ap (text_eq path) (replace_first-absent path (key ++ b'.' ∷ []) [] absent) in
      let same = text_eq_refl path in absurd cc
  | inr ((before, after), there) ↦
      let split = length-cut (key ++ b'.' ∷ []) path before after there in
      let joined = length-append key (b'.' ∷ []) in
      let left = length-append before after in
      rw (replace_first-present path (key ++ b'.' ∷ []) [] before after there) (omega arith)
]

abbrev new_path : Text → Text
new_path path = replace_first path (first_key (keys_of path (pos 0)) ++ b'.' ∷ []) []

module _ (lib : Golib) where
  walk_value-cong :
      (path : Text) (next other : Text → Value → Evaluation) (x : Extraction)
      → ((p : Text) (v : Value) → length p < length path → next p v ≡ other p v)
      → walk_value lib path next x ≡ walk_value lib path other x
  unfolding walk_value
  walk_value-cong path next other panics h = refl
  walk_value-cong path next other unended h = refl
  walk_value-cong path next other (extracted (object m)) h =
      elim (Bool-cases (text_eq path (new_path path))) [
        | inl same ↦ rw same refl
        | inr shrunk ↦ rw shrunk (
            h (new_path path) (object m)
              (shorter_path path (first_key (keys_of path (pos 0))) shrunk))
      ]
  walk_value-cong path next other (extracted (string s)) h = refl
  walk_value-cong path next other (extracted (slice vs)) h = refl
  walk_value-cong path next other (extracted null) h = refl
  walk_value-cong path next other (extracted (boolean b)) h = refl
  walk_value-cong path next other (extracted (int64 n)) h = refl
  walk_value-cong path next other (extracted (float64 f)) h = refl

  enough :
      (f g : ℕ) (path : Text) (v : Value)
      → length path < f
      → length path < g
      → walk_fuel lib f path v ≡ walk_fuel lib g path v
  unfolding walk_fuel
  enough zero g path v hf hg = absurd (omega arith)
  enough (suc f) zero path v hf hg = absurd (omega arith)
  enough (suc f) (suc g) path v hf hg =
      walk_value-cong path (walk_fuel lib f) (walk_fuel lib g) _
        λ p w shorter. enough f g p w (omega arith) (omega arith)

  walk_value-answered :
      (path : Text) (next : Text → Value → Evaluation) (x : Extraction)
      → has_ended x ≡ true
      → ((p : Text) (v : Value) → length p < length path → has_answered (next p v) ≡ true)
      → has_answered (walk_value lib path next x) ≡ true
  unfolding walk_value
  walk_value-answered path next panics e h = refl
  walk_value-answered path next unended e h = cc
  walk_value-answered path next (extracted (object m)) e h =
      elim (Bool-cases (text_eq path (new_path path))) [
        | inl same ↦ elim (Outcome-cases (lib.marshal m)) [
          | inl (b, there) ↦ rw (walk_value, same, there)
          | inr (x, there) ↦ rw (walk_value, same, there)
        ]
        | inr shrunk ↦ rw shrunk (
            h (new_path path) (object m)
              (shorter_path path (first_key (keys_of path (pos 0))) shrunk))
      ]
  walk_value-answered path next (extracted (string s)) e h =
      elim (Option-cases (second_key (keys_of path (pos 0)))) [
        | inl absent ↦ rw (walk_value, absent)
        | inr (key, there) ↦ rw (walk_value, there)
      ]
  walk_value-answered path next (extracted (slice vs)) e h = refl
  walk_value-answered path next (extracted null) e h = refl
  walk_value-answered path next (extracted (boolean b)) e h = refl
  walk_value-answered path next (extracted (int64 n)) e h = refl
  walk_value-answered path next (extracted (float64 f)) e h = refl

  walk_fuel-answered :
      (fuel : ℕ) (path : Text) (v : Value)
      → length path < fuel
      → has_answered (walk_fuel lib fuel path v) ≡ true
  unfolding walk_fuel extract_value
  walk_fuel-answered zero path v h = absurd (omega arith)
  walk_fuel-answered (suc fuel) path v h =
      let key = first_key (keys_of path (pos 0)) in
      walk_value-answered path (walk_fuel lib fuel) (extract_value key v)
        (extract_fuel-ended (suc (length key)) key v (omega arith))
        λ p w shorter. walk_fuel-answered fuel p w (omega arith)

  -- walk ends: with more rounds than the path has characters the fuel does not run out, neither
  -- that of walk nor that of the calls of extractValue in it, and the result is the same however
  -- many more rounds there are.
  pub walk_fuel-walk :
      (fuel : ℕ) (path : Text) (v : Value)
      → length path < fuel
      → (has_answered (walk_fuel lib fuel path v) ≡ true)
        × (walk_fuel lib fuel path v ≡ walk lib path v)
  unfolding walk
  walk_fuel-walk fuel path v h =
      (walk_fuel-answered fuel path v h, enough fuel (suc (length path)) path v h (omega arith))
