-- ===== src/Gontext.antt =====
-- app/config/gontext/gontext.go: the values that the endpoints of a suite share. A value of type
-- interface{} is a tree; a float64 is held by its 64 bits. Maps are held by one path only: New
-- copies what it is given, and Set is called with values that hold no map of the context.
pub mod Access
pub mod Copying
mod Examples
use ecs_gatus_app.Base.{
  ℕ, Bool, true, false, Option, none, some, List, [], ◌∷◌, ◌++◌, if◌then◌else◌,
}
use ecs_gatus_app.Base.Int.{ℤ}
use ecs_gatus_app.Base.Text.{Text, codes, text_eq, split}
use ecs_gatus_app.Base.Outcome.{Outcome, ok, err}

mutual
  pub data Value : Type 0 where
    null : Value
    boolean : Bool → Value
    int64 : ℤ → Value
    float64 : ℕ → Value
    string : Text → Value
    slice : Values → Value
    object : Entries → Value

  pub data Values : Type 0 where
    nil : Values
    cons : Value → Values → Values

  pub data Entries : Type 0 where
    end : Entries
    entry : Text → Value → Entries → Entries

-- `v, exists := m[k]`.
unfoldable pub entry_of : Text → Entries → Option Value
entry_of k end = none
entry_of k (entry j v m) = if text_eq j k then some v else entry_of k m

-- `m[k] = v`.
unfoldable pub set_entry : Text → Value → Entries → Entries
set_entry k v end = entry k v end
set_entry k v (entry j w m) = if text_eq j k then entry k v m else entry j w (set_entry k v m)

pub record Gontext : Type 0 where
  pub values : Entries

-- The errors' texts name the path.
abbrev pub path_not_found : Text → Text
path_not_found path = codes "gontext path not found: " ++ path

-- The loop of Get over the parts of the path.
get_step : Text → Value → Option Value
get_step part (object m) = entry_of part m
get_step part other = none

unfoldable pub get_parts : List Text → Value → Option Value
unfolding get_step
get_parts [] current = some current
get_parts (part ∷ parts) current = elim (get_step part current) [
  | none ↦ none
  | some next ↦ get_parts parts next
]

abbrev pub found : Text → Option Value → Outcome Text Value
found path none = err (path_not_found path)
found path (some v) = ok v

unfoldable pub get : Text → Gontext → Outcome Text Value
get path g = found path (get_parts (split b'.' path) (object g.values))

-- The map to go on in: what is no map is replaced by a new one.
abbrev pub submap : Option Value → Entries
submap (some (object m)) = m
submap _ = end

-- The loop of Set, which makes the intermediate maps, and its last assignment.
unfoldable pub set_parts : List Text → Value → Entries → Entries
set_parts [] v m = m
set_parts (part ∷ []) v m = set_entry part v m
set_parts (part ∷ next ∷ parts) v m =
    set_entry part (object (set_parts (next ∷ parts) v (submap (entry_of part m)))) m

-- Split returns at least one part, so the error "empty path" is not returned.
unfoldable pub set : Text → Value → Gontext → Gontext
set path v g = record { values = set_parts (split b'.' path) v g.values }

unfoldable mutual
  pub deep_copy_value : Value → Value
  deep_copy_value null = null
  deep_copy_value (boolean b) = boolean b
  deep_copy_value (int64 n) = int64 n
  deep_copy_value (float64 bits) = float64 bits
  deep_copy_value (string s) = string s
  deep_copy_value (slice vs) = slice (deep_copy_values vs)
  deep_copy_value (object m) = object (deep_copy_entries m)

  pub deep_copy_values : Values → Values
  deep_copy_values nil = nil
  deep_copy_values (cons v vs) = cons (deep_copy_value v) (deep_copy_values vs)

  pub deep_copy_entries : Entries → Entries
  deep_copy_entries end = end
  deep_copy_entries (entry k v m) = entry k (deep_copy_value v) (deep_copy_entries m)

-- A nil map is an empty one.
unfoldable pub new : Entries → Gontext
new initial = record { values = deep_copy_entries initial }

unfoldable pub get_all : Gontext → Entries
get_all g = deep_copy_entries g.values
