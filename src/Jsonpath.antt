-- ===== src/Jsonpath.antt =====
-- app/jsonpath/jsonpath.go: the value at a path of a JSON document. A panic of the Go code, from a
-- type assertion or an index, is an outcome.
pub mod Terminates
pub mod Panics
mod Examples
use ecs_gatus_app.Base.{
  ℕ, zero, suc, ◌+◌, ◌-◌, Bool, true, false, not, ◌&&◌, ◌||◌, Option, none, some, List, [], ◌∷◌,
  ◌++◌, if◌then◌else◌, length, take, drop, ltb, ◌==◌,
}
use ecs_gatus_app.Base.Int.{ℤ, pos, negsuc, ◌+ℤ◌, ◌-ℤ◌, eqb_ℤ}
use ecs_gatus_app.Base.Text.{Text, codes, text_eq, is_empty, atoi}
use ecs_gatus_app.Base.Strings.{has_suffix, contains, replace_first}
use ecs_gatus_app.Base.Outcome.{Outcome, ok, err}
use ecs_gatus_app.Gontext.{
  Value, Values, Entries, null, boolean, int64, float64, string, slice, object, nil, cons, end,
  entry, entry_of,
}
use ecs_gatus_app.Golib.{Golib}

-- What a call of extractValue ends with; unended is what is left where the fuel runs out.
pub data Extraction : Type 0 where
  extracted : Value → Extraction
  panics : Extraction
  unended : Extraction

-- The loop over the key: where the first bracket pair at depth 1 begins and ends, from position i.
unfoldable pub find_brackets : Text → ℕ → ℕ → ℕ → Option (ℕ × ℕ)
find_brackets [] i start depth = none
find_brackets (c ∷ key) i start depth =
    let later =
      find_brackets key (i + 1) (if c == b'[' then i else start)
        (if c == b'[' then depth + 1 else depth) in
    if c == b']' && depth == 1 then some (start, i) else later

-- `len(array)`, and `array[i]`.
unfoldable pub length_of_values : Values → ℕ
length_of_values nil = 0
length_of_values (cons v vs) = suc (length_of_values vs)

unfoldable pub item_of : Values → ℕ → Option Value
item_of nil i = none
item_of (cons v vs) zero = some v
item_of (cons v vs) (suc i) = item_of vs i

-- `array, _ := v.([]interface{})`: the nil slice for what is no slice.
abbrev pub as_slice : Value → Values
as_slice (slice vs) = vs
as_slice other = nil

-- `if len(array) > arrayIndex`, and then the item, which `inner` goes on from. An index below 0
-- passes the test.
at_index : Values → ℤ → (Value → Extraction) → Extraction
at_index vs (negsuc n) inner = panics
at_index vs (pos n) inner = elim (item_of vs n) [ none ↦ extracted null | some v ↦ inner v ]

non_nil : Value → (Value → Extraction) → Extraction
non_nil null inner = extracted null
non_nil v inner = inner v

-- `value == nil || value.(map[string]interface{})[k] == nil`, where `inner` goes on with the field.
field_of : Text → Value → (Value → Extraction) → Extraction
unfolding non_nil
field_of k null inner = extracted null
field_of k (object m) inner = elim (entry_of k m) [
  | none ↦ extracted null
  | some v ↦ non_nil v inner
]
field_of k other inner = panics

-- The value of a key with no index.
plain_value : Text → Value → Extraction
plain_value key (object m) = elim (entry_of key m) [ none ↦ extracted null | some v ↦ extracted v ]
plain_value key other = extracted other

-- A key with an index, whose brackets are found and whose index is read; `nested` goes on behind
-- them.
unfoldable pub indexed_value : Text → ℤ → (Value → Extraction) → Value → Extraction
unfolding at_index field_of
indexed_value name index nested value =
    if is_empty name
    then at_index (as_slice value) index nested
    else field_of name value (λ v. at_index (as_slice v) index nested)

-- `isNestedArray`: another pair of brackets follows at once.
after_brackets : (Text → Value → Extraction) → Text → Value → Extraction
after_brackets deeper [] v = extracted v
after_brackets deeper (c ∷ rest) v =
    let nested = deeper (c ∷ rest) v in if c == b'[' then nested else extracted v

-- extractValue, where the key ends with a bracket and has an opening one.
extract_indexed : (Text → Value → Extraction) → Text → Value → Extraction
unfolding find_brackets indexed_value after_brackets
extract_indexed deeper key value = elim (find_brackets key 0 0 0) [
  | none ↦ extracted null
  | some (start, last) ↦ elim (atoi (take (last - start - 1) (drop (start + 1) key))) [
    | none ↦ extracted null
    | some index ↦
        indexed_value (take start key) index (after_brackets deeper (drop (last + 1) key)) value
  ]
]

-- extractValue; what is behind the brackets is shorter than the key, and `fuel` bounds its length.
unfoldable pub extract_fuel : ℕ → Text → Value → Extraction
unfolding extract_indexed plain_value
extract_fuel zero key value = unended
extract_fuel (suc fuel) key value =
    let indexed = extract_indexed (extract_fuel fuel) key value in
    if has_suffix key (codes "]") && contains key (codes "[")
    then indexed
    else plain_value key value

unfoldable pub extract_value : Text → Value → Extraction
unfolding extract_fuel
extract_value key value = extract_fuel (suc (length key)) key value

-- The keys of a path: its parts between the dots that stand in no brackets.
abbrev cons_to_first : ℕ → List Text → List Text
cons_to_first c [] = (c ∷ []) ∷ []
cons_to_first c (key ∷ keys) = (c ∷ key) ∷ keys

abbrev depth_after : ℕ → ℤ → ℤ
depth_after c depth =
    if c == b'[' then depth +ℤ pos 1 else if c == b']' then depth -ℤ pos 1 else depth

unfoldable pub keys_of : Text → ℤ → List Text
keys_of [] depth = [] ∷ []
keys_of (c ∷ path) depth =
    let keys = keys_of path (depth_after c depth) in
    if c == b'.' && eqb_ℤ (depth_after c depth) (pos 0) then [] ∷ keys else cons_to_first c keys

-- The first key, and the second one where there is one.
abbrev pub first_key : List Text → Text
first_key [] = []
first_key (key ∷ keys) = key

abbrev second_key : List Text → Option Text
second_key (key ∷ next ∷ keys) = some next
second_key keys = none

-- What Eval and walk return: a text with its length, an error, or a panic; out_of_fuel is what is
-- left where the fuel runs out.
pub data Evaluation : Type 0 where
  value_of : Text → ℕ → Evaluation
  error_of : Text → Evaluation
  panic : Evaluation
  out_of_fuel : Evaluation

abbrev no_walk_through_string : Text → Text → Text
no_walk_through_string next key =
    codes "couldn't walk through '"
    ++ (next ++ (codes "', because '" ++ (key ++ codes "' was a string instead of an object")))

abbrev no_walk_through_nil : Text → Text
no_walk_through_nil key =
    codes "couldn't walk through '"
    ++ (key ++ codes "' because type was '<nil>', but expected 'map[string]interface{}'")

-- The body is a JSON array, by its first and last characters.
looks_like_array : Text → Bool
looks_like_array [] = false
looks_like_array (c ∷ b) = c == b'[' && has_suffix (c ∷ b) (codes "]")

module _ (lib : Golib) where
  -- The branches of walk on the value of the current key; `next` walks on with the shorter path.
  walk_value : Text → (Text → Value → Evaluation) → Extraction → Evaluation
  walk_value path next panics = panic
  walk_value path next unended = out_of_fuel
  walk_value path next (extracted (object m)) =
      let key = first_key (keys_of path (pos 0)) in
      let new_path = replace_first path (key ++ (b'.' ∷ [])) [] in
      let walked = next new_path (object m) in
      if text_eq path new_path
      then elim (lib.marshal m) [ ok b ↦ value_of b (length b) | err e ↦ error_of e ]
      else walked
  walk_value path next (extracted (string s)) = elim (second_key (keys_of path (pos 0))) [
    | some key ↦ error_of (no_walk_through_string key (first_key (keys_of path (pos 0))))
    | none ↦ value_of s (length s)
  ]
  walk_value path next (extracted (slice vs)) =
      value_of (lib.sprint (slice vs)) (length_of_values vs)
  walk_value path next (extracted null) =
      error_of (no_walk_through_nil (first_key (keys_of path (pos 0))))
  walk_value path next (extracted other) = value_of (lib.sprint other) (length (lib.sprint other))

  -- walk, on fuel: each round takes a character off the path at least.
  unfoldable pub walk_fuel : ℕ → Text → Value → Evaluation
  unfolding walk_value keys_of
  walk_fuel zero path value = out_of_fuel
  walk_fuel (suc fuel) path value =
      walk_value path (walk_fuel fuel) (extract_value (first_key (keys_of path (pos 0))) value)

  unfoldable pub walk : Text → Value → Evaluation
  unfolding walk_fuel
  walk path value = walk_fuel (suc (length path)) path value

  unfoldable pub eval : Text → Text → Evaluation
  unfolding looks_like_array walk
  eval path b =
      if is_empty path && not (looks_like_array b)
      then value_of b (length b)
      else elim (lib.unmarshal b) [ err e ↦ error_of e | ok v ↦ walk path v ]
