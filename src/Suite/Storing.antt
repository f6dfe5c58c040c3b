-- ===== src/Suite/Storing.antt =====
-- StoreResultValues.
use ecs_gatus_app.Base.{◌≡◌, refl, ap, ◌∙◌, ◌↔◌, true, false, none, List, [], ◌∷◌, ◌++◌, All, arith}
use ecs_gatus_app.Base.Outcome.{Outcome, ok, err}
use ecs_gatus_app.Base.Text.{Text, split}
use ecs_gatus_app.Endpoint.{Result}
use ecs_gatus_app.Gontext
use ecs_gatus_app.Gontext.{Gontext, Value}
use ecs_gatus_app.Gontext.Access.{Diverge, get-set, get-set_ne}
use ecs_gatus_app.Suite.{Stored, is_nil, store_value, store_loop, store_result_values}

abbrev pub IsOk : Outcome Text Value → Type 0
IsOk (ok v) = Unit
IsOk (err e) = ⊥

module _ (extract : Text → Result → Outcome Text Value) (r : Result) where
  -- Every placeholder can be extracted.
  abbrev pub AllOk : List (Text × Text) → Type 0
  AllOk mappings = All (λ (m : Text × Text). IsOk (extract m.1 r)) mappings

  is_nil-snoc : (xs : List Text) (x : Text) → is_nil (xs ++ x ∷ []) ≡ false
  is_nil-snoc [] x = refl
  is_nil-snoc (y ∷ xs) x = refl

  -- Errors stay.
  errors_stay :
      (ms : List (Text × Text)) (s : Stored)
      → is_nil s.extraction_errors ≡ false
      → is_nil (store_loop extract ms r s).extraction_errors ≡ false
  unfolding store_loop
  errors_stay [] s h = h
  errors_stay ((k, p) ∷ ms) s h = errors_stay ms _ (one (extract p r))
    where
      one : (o : Outcome Text Value) → is_nil (store_value extract k o s).extraction_errors ≡ false
      one (ok v) = h
      one (err e) = is_nil-snoc s.extraction_errors _

  none_iff :
      (ms : List (Text × Text)) (s : Stored)
      → is_nil s.extraction_errors ≡ true
      → (is_nil (store_loop extract ms r s).extraction_errors ≡ true) ↔ AllOk ms
  unfolding store_loop
  none_iff [] s h = (λ e. tt, λ a. h)
  none_iff ((k, p) ∷ ms) s h = one (none_iff ms) (extract p r)
    where
      one :
          ((t : Stored)
            → is_nil t.extraction_errors ≡ true
            → (is_nil (store_loop extract ms r t).extraction_errors ≡ true) ↔ AllOk ms)
          → (o : Outcome Text Value)
          → (is_nil (store_loop extract ms r (store_value extract k o s)).extraction_errors ≡ true)
            ↔ (IsOk o × AllOk ms)
      one ih (ok v) = (λ e. (tt, (ih _ h).0 e), λ a. (ih _ h).1 a.1)
      one ih (err e) = (
        λ c.
            cc (
              errors_stay ms (store_value extract k (err e) s) (is_nil-snoc s.extraction_errors _)),
        λ a. absurd a.0,
      )

  -- No error is returned exactly when every placeholder of the mappings can be extracted.
  pub store_result_values_iff :
      (ctx : Gontext) (ms : List (Text × Text))
      → ((store_result_values extract ctx ms r).1 ≡ none) ↔ AllOk ms
  unfolding store_result_values
  store_result_values_iff ctx ms =
      let s : Stored = record { context = ctx; values = []; extraction_errors = [] } in
      ground (arith, none_iff ms s refl)

  -- A key whose path parts from those of all the mappings that can be extracted.
  abbrev pub IsApart : Text → List (Text × Text) → Type 0
  IsApart k ms =
      All (λ (m : Text × Text). IsOk (extract m.1 r) → Diverge (split b'.' m.0) (split b'.' k)) ms

  get-store_loop :
      (k : Text) (ms : List (Text × Text)) (s : Stored)
      → IsApart k ms
      → Gontext.get k (store_loop extract ms r s).context ≡ Gontext.get k s.context
  unfolding store_loop
  get-store_loop k [] s h = refl
  get-store_loop k ((j, p) ∷ ms) s h = get-store_loop k ms _ h.1 ∙ one (extract p r) h.0
    where
      one :
          (o : Outcome Text Value)
          → (IsOk o → Diverge (split b'.' j) (split b'.' k))
          → Gontext.get k (store_value extract j o s).context ≡ Gontext.get k s.context
      one (ok v) apart = get-set_ne j k v s.context (apart tt)
      one (err e) apart = refl

  store_loop-append :
      (before after : List (Text × Text)) (s : Stored)
      → store_loop extract (before ++ after) r s
        ≡ store_loop extract after r (store_loop extract before r s)
  unfolding store_loop
  store_loop-append [] after s = refl
  store_loop-append ((k, p) ∷ before) after s = store_loop-append before after _

  -- A value that can be extracted is found in the context afterwards under its key, if the key of no
  -- mapping that comes later in the order of the iteration, and whose own value can be extracted,
  -- runs along the same path; mappings that fail, before or after it, make no difference.
  pub get-store_result_values :
      (ctx : Gontext) (before after : List (Text × Text)) (k p : Text) (v : Value)
      → extract p r ≡ ok v
      → IsApart k after
      → Gontext.get k (store_result_values extract ctx (before ++ (k, p) ∷ after) r).0 ≡ ok v
  unfolding store_result_values store_loop
  get-store_result_values ctx before after k p v e h =
      let s =
        store_loop extract before r
          (record { context = ctx; values = []; extraction_errors = [] }) in
      ap (λ (t : Stored). Gontext.get k t.context) (store_loop-append before ((k, p) ∷ after) _)
      ∙ get-store_loop k after (store_value extract k (extract p r) s) h
      ∙ ap (λ o. Gontext.get k (store_value extract k o s).context) e
      ∙ get-set k v s.context
