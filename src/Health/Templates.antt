-- ===== src/Health/Templates.antt =====
-- The texts of an endpoint with parts to fill in: replaceContextPlaceholders, preprocessWithContext
-- and getParsedBody of app/config/endpoint/endpoint.go.
use ecs_gatus_app.Base.{
  ℕ, zero, suc, Bool, not, ◌&&◌, ◌||◌, Option, none, some, List, [], ◌∷◌, ◌++◌, length, drop, leb,
  ◌==◌, if◌then◌else◌, min,
}
use ecs_gatus_app.Base.Text.{Text, codes, has_prefix, is_digit, is_empty, join, digits}
use ecs_gatus_app.Base.Strings.{split_by}
use ecs_gatus_app.Base.Outcome.{Outcome, ok, err}
use ecs_gatus_app.Client.Resolver.{span}
use ecs_gatus_app.Endpoint.{Endpoint, Result, add_error}
use ecs_gatus_app.Gontext
use ecs_gatus_app.Gontext.{Gontext}
use ecs_gatus_app.Golib.{Golib}

-- A text in front of each character, which is taken to be one of ASCII, and at the end.
between : Text → Text → Text
between new [] = new
between new (c ∷ s) = new ++ (c ∷ between new s)

-- strings.ReplaceAll, which finds the empty text everywhere.
unfoldable pub replace_all : Text → Text → Text → Text
unfolding split_by between
replace_all s old new = if is_empty old then between new s else join new (split_by s old)

-- [\w\.\-]
abbrev is_path_char : ℕ → Bool
is_path_char c =
    (leb b'A' c && leb c b'Z')
    || (leb b'a' c && leb c b'z')
    || is_digit c
    || c == b'_'
    || c == b'.'
    || c == b'-'

-- A text and the errors met in it.
pub record Replaced : Type 0 where
  pub text : Text
  pub context_errors : List Text

abbrev put : Text → Option Text → Replaced → Replaced
put front none r = record r { text = front ++ r.text }
put front (some e) r = record r { text = front ++ r.text; context_errors = e ∷ r.context_errors }

-- What replaces a match, and the error for a path that is not there.
replacement : Golib → Text → Outcome Text Gontext.Value → Text × Option Text
replacement lib path (ok v) = (lib.sprint v, none)
replacement lib path (err e) =
    (codes "[CONTEXT]." ++ path, some (codes "path '" ++ (path ++ codes "' not found")))

-- The matches of `\[CONTEXT\]\.[\w\.\-]+` from the left; `fuel` bounds the characters.
unfoldable pub replace_fuel : ℕ → Golib → Gontext → Text → Replaced
unfolding span replacement has_prefix
replace_fuel zero lib ctx s = record { text = s; context_errors = [] }
replace_fuel (suc fuel) lib ctx [] = record { text = []; context_errors = [] }
replace_fuel (suc fuel) lib ctx (c ∷ s) =
    let (path, rest) = span is_path_char (drop 10 (c ∷ s)) in
    let (front, e) = replacement lib path (Gontext.get path ctx) in
    let behind_match = replace_fuel fuel lib ctx rest in
    let behind_char = replace_fuel fuel lib ctx s in
    if has_prefix (c ∷ s) (codes "[CONTEXT].") && not (is_empty path)
    then put front e behind_match
    else put (c ∷ []) none behind_char

-- The text, and the text of the error.
unfoldable pub replace_context_placeholders : Golib → Text → Gontext → Text × Option Text
unfolding replace_fuel
replace_context_placeholders lib input ctx =
    let r = replace_fuel (length input) lib ctx input in
    (
      r.text,
      elim r.context_errors [
        | [] ↦ none
        | e ∷ es ↦
            some (codes "context placeholder resolution failed: " ++ join (codes ", ") (e ∷ es))
      ],
    )

abbrev pub add_optional_error : Result → Option Text → Result
add_optional_error r none = r
add_optional_error r (some e) = add_error r e

-- The loop over the headers.
replace_in_headers : Golib → Gontext → List (Text × Text) → Result → List (Text × Text) × Result
unfolding replace_context_placeholders add_error
replace_in_headers lib ctx [] r = ([], r)
replace_in_headers lib ctx ((k, v) ∷ headers) r =
    let (value, e) = replace_context_placeholders lib v ctx in
    let (others, r') = replace_in_headers lib ctx headers (add_optional_error r e) in
    ((k, value) ∷ others, r')

-- The endpoint to call, and the result with the errors.
unfoldable pub preprocess_with_context : Golib → Endpoint → Result → Gontext → Endpoint × Result
unfolding replace_context_placeholders replace_in_headers add_error
preprocess_with_context lib e r ctx =
    let (url, url_error) = replace_context_placeholders lib e.url ctx in
    let (body, body_error) = replace_context_placeholders lib e.body ctx in
    let (headers, r') =
      replace_in_headers lib ctx e.headers
        (add_optional_error (add_optional_error r url_error) body_error) in
    (record e { url = url; body = body; headers = headers }, r')

-- The length of a random string, at most 8192, also where Atoi stops at the greatest integer.
abbrev random_length : Option ℕ → ℕ
random_length none = 8192
random_length (some n) = min n 8192

-- The matches of `\[RANDOM_STRING_\d+\]` from the left.
unfoldable pub randomize_fuel : ℕ → (ℕ → Text) → Text → Text
unfolding span has_prefix digits
randomize_fuel zero random s = s
randomize_fuel (suc fuel) random [] = []
randomize_fuel (suc fuel) random (c ∷ s) =
    let (number, rest) = span is_digit (drop 15 (c ∷ s)) in
    let behind_match = randomize_fuel fuel random (drop 1 rest) in
    let behind_char = randomize_fuel fuel random s in
    if has_prefix (c ∷ s) (codes "[RANDOM_STRING_")
      && not (is_empty number)
      && has_prefix rest (codes "]")
    then random (random_length (digits number)) ++ behind_match
    else c ∷ behind_char

unfoldable pub get_parsed_body : (ℕ → Text) → Endpoint → Text
unfolding replace_all randomize_fuel
get_parsed_body random e =
    let named = replace_all e.body (codes "[ENDPOINT_NAME]") e.name in
    let grouped = replace_all named (codes "[ENDPOINT_GROUP]") e.group in
    let body = replace_all grouped (codes "[ENDPOINT_URL]") e.url in
    randomize_fuel (length body) random body
