-- ===== src/Endpoint/Errors.antt =====
-- The errors of a result: AddError.
use ecs_gatus_app.Base.{
  ◌≡◌, refl, inl, inr, false, List, [], ◌∷◌, ◌++◌, arith, if◌then◌else◌, Bool-cases,
}
use ecs_gatus_app.Base.Text.{Text, text_eq, text_eq_iff}
use ecs_gatus_app.Base.Eq.{text_key}
use ecs_gatus_app.Base.Assoc.{member}
use ecs_gatus_app.Endpoint.{Result, add_if_absent, add_error}

-- No text stands twice.
abbrev pub IsDistinct : List Text → Type 0
IsDistinct [] = Unit
IsDistinct (e ∷ es) = (member e es ≡ false) × IsDistinct es

pub add_if_absent_lem :
    (x : Text) (es : List Text) → add_if_absent x es ≡ (if member x es then es else es ++ x ∷ [])
unfolding add_if_absent
add_if_absent_lem x [] = refl
add_if_absent_lem x (e ∷ es) = ground (arith, add_if_absent_lem x es)

member-add_if_absent :
    (y x : Text) (es : List Text)
    → member y es ≡ false
    → text_eq x y ≡ false
    → member y (add_if_absent x es) ≡ false
unfolding add_if_absent
member-add_if_absent y x [] h k = ground arith
member-add_if_absent y x (e ∷ es) h k = ground (arith, member-add_if_absent y x es)

add_if_absent-IsDistinct :
    (x : Text) (es : List Text) → IsDistinct es → IsDistinct (add_if_absent x es)
unfolding add_if_absent
add_if_absent-IsDistinct x [] d = (refl, tt)
add_if_absent-IsDistinct x (e ∷ es) d = elim (Bool-cases (text_eq e x)) [
  | inl h ↦ rw h d
  | inr h ↦ rw h (
    member-add_if_absent e x es d.0 (ground (arith, text_eq_iff e x, text_eq_iff x e)),
    add_if_absent-IsDistinct x es d.1,
  )
]

-- AddError keeps the errors distinct, keeps those that are there in their places, and appends the
-- new text at the end exactly when it is not there yet.
pub add_error-IsDistinct :
    (r : Result) (x : Text)
    → IsDistinct r.errors
    → IsDistinct (add_error r x).errors
      × ((add_error r x).errors ≡ (if member x r.errors then r.errors else r.errors ++ x ∷ []))
unfolding add_error
add_error-IsDistinct r x d = (add_if_absent-IsDistinct x r.errors d, add_if_absent_lem x r.errors)
