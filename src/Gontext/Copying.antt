-- ===== src/Gontext/Copying.antt =====
-- The deep copies of New and GetAll.
use ecs_gatus_app.Base.{◌≡◌, refl, ap, ◌∙◌}
use mathlib.Core.Path.{ap₂}
use ecs_gatus_app.Gontext.{
  Value, Values, Entries, null, boolean, int64, float64, string, slice, object, nil, cons, end,
  entry, deep_copy_value, deep_copy_values, deep_copy_entries, new, get_all,
}

mutual
  unfolding deep_copy_value deep_copy_values deep_copy_entries

  copied : (v : Value) → deep_copy_value v ≡ v
  copied null = refl
  copied (boolean b) = refl
  copied (int64 n) = refl
  copied (float64 bits) = refl
  copied (string s) = refl
  copied (slice vs) = ap slice (copied_values vs)
  copied (object m) = ap object (copied_entries m)

  copied_values : (vs : Values) → deep_copy_values vs ≡ vs
  copied_values nil = refl
  copied_values (cons v vs) = ap₂ cons (copied v) (copied_values vs)

  copied_entries : (m : Entries) → deep_copy_entries m ≡ m
  copied_entries end = refl
  copied_entries (entry k v m) = ap₂ (entry k) (copied v) (copied_entries m)

-- A context made from some values gives back those values.
pub get_all-new : (m : Entries) → get_all (new m) ≡ m
unfolding get_all new
get_all-new m = copied_entries (deep_copy_entries m) ∙ copied_entries m
