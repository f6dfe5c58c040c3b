-- ===== src/Placeholder.antt =====
-- app/config/endpoint/placeholder.go. Text is read as bytes, and case is that of ASCII.
pub mod Resolved
mod Examples
use ecs_gatus_app.Base.{
  ℕ, zero, suc, Bool, true, false, not, ◌&&◌, ◌||◌, Option, none, some, List, [], ◌∷◌, ◌++◌,
  if◌then◌else◌, length, drop, ltb,
}
use ecs_gatus_app.Base.Int.{ℤ, pos, quot}
use ecs_gatus_app.Base.Text.{
  Text, codes, text_eq, is_empty, has_prefix, trim_prefix, to_upper, trim_space,
}
use ecs_gatus_app.Base.Strings.{has_suffix, trim_suffix, itoa, format_bool}
use ecs_gatus_app.Base.Outcome.{Outcome, ok, err}
use ecs_gatus_app.Endpoint.{Result}
use ecs_gatus_app.Gontext
use ecs_gatus_app.Gontext.{
  Gontext, Value, Values, Entries, null, boolean, int64, float64, string, slice, object, end, entry,
}
use ecs_gatus_app.Golib.{Golib}
use ecs_gatus_app.Jsonpath.{
  Evaluation, value_of, error_of, panic, out_of_fuel, eval, length_of_values,
}

pub data FunctionType : Type 0 where
  no_function : FunctionType
  function_len : FunctionType
  function_has : FunctionType

-- What the functions that resolve a placeholder end with: a text, the text of an error, or a panic
-- from the evaluation of a path.
pub data Resolution : Type 0 where
  resolved : Text → Resolution
  failed : Text → Resolution
  panics : Resolution

abbrev pub invalid : Text → Text
invalid element = element ++ codes " (INVALID)"

abbrev wrapped_by : Text → Text → Bool
wrapped_by prefix s = has_prefix s prefix && has_suffix s (codes ")")

abbrev pub unwrapped : Text → Text → Text
unwrapped prefix s = trim_suffix (trim_prefix s prefix) (codes ")")

unfoldable pub extract_function_wrapper : Text → FunctionType × Text
unfolding has_prefix has_suffix trim_prefix trim_suffix
extract_function_wrapper placeholder =
    if wrapped_by (codes "len(") placeholder
    then (function_len, unwrapped (codes "len(") placeholder)
    else if wrapped_by (codes "has(") placeholder
    then (function_has, unwrapped (codes "has(") placeholder)
    else (no_function, placeholder)

unfoldable pub format_with_function : Text → FunctionType → Text
unfolding itoa
format_with_function value function_has = format_bool (not (is_empty value))
format_with_function value function_len = itoa (pos (length value))
format_with_function value no_function = value

-- `len(v)` of a map.
unfoldable pub length_of_entries : Entries → ℕ
length_of_entries end = zero
length_of_entries (entry k v m) = suc (length_of_entries m)

-- The switch on the type of a value of the context.
unfoldable pub length_of_value : Golib → Value → ℕ
unfolding length_of_values length_of_entries
length_of_value lib (string v) = length v
length_of_value lib (slice v) = length_of_values v
length_of_value lib (object v) = length_of_entries v
length_of_value lib v = length (lib.sprint v)

-- The value at a path, under each of the functions.
context_value : Golib → FunctionType → Text → Outcome Text Value → Text
unfolding length_of_value
context_value lib function_has original (ok v) = format_bool true
context_value lib function_has original (err e) = format_bool false
context_value lib function_len original (ok v) = itoa (pos (length_of_value lib v))
context_value lib function_len original (err e) = invalid original
context_value lib no_function original (ok v) = lib.sprint v
context_value lib no_function original (err e) = invalid original

abbrev no_context_path : FunctionType → Text → Text
no_context_path function_has original = codes "false"
no_context_path fn original = invalid original

unfoldable pub resolve_context_placeholder : Golib → Text → FunctionType → Text → Gontext → Text
unfolding context_value
resolve_context_placeholder lib placeholder fn original ctx =
    let context_path = trim_prefix (trim_prefix placeholder (codes "[CONTEXT]")) (codes ".") in
    if is_empty context_path
    then no_context_path fn original
    else context_value lib fn original (Gontext.get context_path ctx)

-- The outcome of a path in the body, under each of the functions. An evaluation has fuel enough for
-- its path, so out_of_fuel stands for nothing that the code does.
body_value : FunctionType → Text → Evaluation → Resolution
unfolding itoa
body_value fn original panic = panics
body_value fn original out_of_fuel = panics
body_value function_has original (value_of value n) = resolved (format_bool true)
body_value function_has original (error_of e) = resolved (format_bool false)
body_value function_len original (value_of value n) = resolved (itoa (pos n))
body_value no_function original (value_of value n) = resolved value
body_value fn original (error_of e) = resolved (invalid original)

unfoldable pub resolve_json_path_placeholder :
    Golib → Text → FunctionType → Text → Result → Resolution
unfolding body_value trim_prefix
resolve_json_path_placeholder lib placeholder fn original r =
    let path =
      if has_prefix (to_upper placeholder) (codes "[BODY]")
      then drop 6 placeholder
      else trim_prefix placeholder (codes "[BODY]") in
    body_value fn original (eval lib (trim_prefix path (codes ".")) r.body)

-- len([BODY]) is the length of the document, and of the text where that is none.
body_length : Text → Evaluation → Resolution
unfolding itoa
body_length body (value_of value n) = resolved (itoa (pos n))
body_length body (error_of e) = resolved (itoa (pos (length body)))
body_length body panic = panics
body_length body out_of_fuel = panics

unfoldable pub resolve_body : Golib → FunctionType → Result → Resolution
unfolding body_length
resolve_body lib function_has r = resolved (format_bool (ltb 0 (length (trim_space r.body))))
resolve_body lib function_len r = body_length (trim_space r.body) (eval lib [] r.body)
resolve_body lib no_function r = resolved (trim_space r.body)

-- Not a recognized placeholder.
abbrev unrecognized : FunctionType → Text → Text
unrecognized function_has original = codes "false"
unrecognized function_len original = invalid original
unrecognized no_function original = original

-- The cases of the switch but that of the body: the value of the field.
unfoldable pub basic_placeholder : Text → Result → Option Text
unfolding text_eq itoa
basic_placeholder name r =
    if text_eq name (codes "[STATUS]")
    then some (itoa r.http_status)
    else if text_eq name (codes "[IP]")
    then some r.ip
    else if text_eq name (codes "[RESPONSE_TIME]")
    then some (itoa (quot r.duration 1000000))
    else if text_eq name (codes "[DNS_RCODE]")
    then some r.dns_r_code
    else if text_eq name (codes "[CONNECTED]")
    then some (format_bool r.connected)
    else if text_eq name (codes "[CERTIFICATE_EXPIRATION]")
    then some (itoa (quot r.certificate_expiration 1000000))
    else if text_eq name (codes "[DOMAIN_EXPIRATION]")
    then some (itoa (quot r.domain_expiration 1000000))
    else none

-- The end of the switch, given the value of a basic placeholder if it is one.
unfoldable pub after_switch : Golib → Text → FunctionType → Text → Result → Option Text → Resolution
unfolding resolve_body resolve_json_path_placeholder format_with_function has_prefix
after_switch lib placeholder fn original r (some value) = resolved (format_with_function value fn)
after_switch lib placeholder fn original r none =
    let name = to_upper placeholder in
    if text_eq name (codes "[BODY]")
    then resolve_body lib fn r
    else if has_prefix name (codes "[BODY].") || has_prefix name (codes "[BODY][")
    then resolve_json_path_placeholder lib placeholder fn original r
    else resolved (unrecognized fn original)

unfoldable pub resolve_in_result : Golib → Text → FunctionType → Text → Result → Resolution
unfolding after_switch basic_placeholder
resolve_in_result lib placeholder fn original r =
    after_switch lib placeholder fn original r (basic_placeholder (to_upper placeholder) r)

unfoldable pub resolve_unwrapped :
    Golib → Text → FunctionType → Text → Result → Option Gontext → Resolution
unfolding resolve_in_result resolve_context_placeholder
resolve_unwrapped lib placeholder fn original r none =
    resolve_in_result lib placeholder fn original r
resolve_unwrapped lib placeholder fn original r (some ctx) =
    if has_prefix (to_upper placeholder) (codes "[CONTEXT]")
    then resolved (resolve_context_placeholder lib placeholder fn original ctx)
    else resolve_in_result lib placeholder fn original r

-- The context is nil outside of a suite.
unfoldable pub resolve_placeholder : Golib → Text → Result → Option Gontext → Resolution
unfolding extract_function_wrapper resolve_unwrapped
resolve_placeholder lib placeholder r ctx =
    let original = trim_space placeholder in
    let wrapper = extract_function_wrapper original in
    resolve_unwrapped lib wrapper.1 wrapper.0 original r ctx
