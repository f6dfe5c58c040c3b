-- ===== src/Golib/Sample.antt =====
-- Functions that can stand for those of Golib, for examples: the only JSON document is [1], and the
-- only duration 10s.
use ecs_gatus_app.Base.{none, some, if◌then◌else◌}
use ecs_gatus_app.Base.Int.{pos}
use ecs_gatus_app.Base.Text.{codes, text_eq}
use ecs_gatus_app.Base.Outcome.{ok, err}
use ecs_gatus_app.Gontext.{Value, int64, slice, cons, nil}
use ecs_gatus_app.Golib.{Golib}

abbrev pub one_element : Value
one_element = slice (cons (int64 (pos 1)) nil)

abbrev pub lib : Golib
lib = record {
  parse_duration = λ t. if text_eq t (codes "10s") then some (pos 10_000_000_000) else none;
  parse_float = λ t. none;
  float_to_int = λ f. pos 0;
  sprint = λ v. codes "7";
  unmarshal = λ t. if text_eq t (codes "[1]") then ok one_element else err (codes "no JSON");
  marshal = λ m. ok (codes "{}");
  match_file_name = text_eq;
}
