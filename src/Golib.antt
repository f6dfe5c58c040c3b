-- ===== src/Golib.antt =====
-- What the evaluation of conditions takes of Go's standard library without a model of it here:
-- the parsing of durations and of floating-point numbers, printing of values, JSON, and file name patterns.
pub mod Sample
use ecs_gatus_app.Base.{ℕ, Bool, Option}
use ecs_gatus_app.Base.Int.{ℤ}
use ecs_gatus_app.Base.Text.{Text}
use ecs_gatus_app.Base.Outcome.{Outcome}
use ecs_gatus_app.Gontext.{Value, Entries}

pub record Golib : Type 0 where
  -- time.ParseDuration; none stands for an error.
  pub parse_duration : Text → Option ℤ
  -- strconv.ParseFloat(s, 64), as the 64 bits of the number, and int64(f).
  pub parse_float : Text → Option ℕ
  pub float_to_int : ℕ → ℤ
  -- fmt.Sprintf("%v", v).
  pub sprint : Value → Text
  -- json.Unmarshal into an interface{}, and json.Marshal of a map.
  pub unmarshal : Text → Outcome Text Value
  pub marshal : Entries → Outcome Text Text
  -- The first result of filepath.Match(pattern, name).
  pub match_file_name : Text → Text → Bool
