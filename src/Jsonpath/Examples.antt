-- ===== src/Jsonpath/Examples.antt =====
-- A document {"data": [{"id": 7}], "name": "john"}.
use ecs_gatus_app.Base.{◌≡◌, refl, true, arith}
use ecs_gatus_app.Base.Int.{pos}
use ecs_gatus_app.Base.Text.{codes, text_eq, atoi, has_prefix}
use ecs_gatus_app.Base.Strings.{has_suffix, contains, replace_first, cut}
use ecs_gatus_app.Gontext.{Value, int64, string, slice, object, nil, cons, end, entry, entry_of}
use ecs_gatus_app.Golib.Sample.{lib, one_element}
use ecs_gatus_app.Jsonpath.Panics.{indexed_key, eval-panics}
use ecs_gatus_app.Jsonpath.Terminates.{has_answered, walk_fuel-walk}
use ecs_gatus_app.Jsonpath.{
  eval, value_of, panic, find_brackets, item_of, keys_of, extract_fuel, extract_value, walk_fuel,
  walk,
}

abbrev document : Value
document = object (
    entry (codes "data") (slice (cons (object (entry (codes "id") (int64 (pos 7)) end)) nil))
      (entry (codes "name") (string (codes "john")) end))

name_of_document : walk lib (codes "name") document ≡ value_of (codes "john") 4
unfolding walk walk_fuel keys_of extract_value extract_fuel has_suffix contains cut entry_of text_eq
    has_prefix
name_of_document = refl

first_id : walk lib (codes "data[0].id") document ≡ value_of (codes "7") 1
unfolding walk walk_fuel keys_of extract_value extract_fuel has_suffix contains cut entry_of text_eq
    has_prefix replace_first find_brackets atoi item_of
first_id = refl

walk_fuel-walk_example :
    (has_answered (walk_fuel lib 100 (codes "data[0].id") document) ≡ true)
    × (walk_fuel lib 100 (codes "data[0].id") document ≡ walk lib (codes "data[0].id") document)
walk_fuel-walk_example = walk_fuel-walk lib 100 (codes "data[0].id") document (omega arith)

-- [BODY].data[0] where the body is [1].
eval-panics_example : eval lib (indexed_key (codes "data") (codes "0")) (codes "[1]") ≡ panic
unfolding text_eq atoi
eval-panics_example =
    eval-panics lib (codes "data") (codes "0") (codes "[1]") (pos 0) one_element (ground arith)
      (ground arith) refl refl refl refl
