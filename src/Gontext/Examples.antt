-- ===== src/Gontext/Examples.antt =====
-- A context with nested values.
use ecs_gatus_app.Base.{◌≡◌, refl}
use ecs_gatus_app.Base.Int.{pos}
use ecs_gatus_app.Base.Text.{codes, text_eq, split}
use ecs_gatus_app.Base.Outcome.{ok}
use ecs_gatus_app.Gontext.{
  Gontext, int64, string, object, end, entry, entry_of, get_parts, get, set,
}
use ecs_gatus_app.Gontext.Access.{get-set, get-set_ne}

-- {user: {id: 7}, token: "x"}.
abbrev session : Gontext
session = record {
  values =
      entry (codes "user") (object (entry (codes "id") (int64 (pos 7)) end))
        (entry (codes "token") (string (codes "x")) end);
}

user_id : get (codes "user.id") session ≡ ok (int64 (pos 7))
unfolding get get_parts entry_of split text_eq
user_id = refl

get-set_example :
    get (codes "token.id") (set (codes "token.id") (int64 (pos 1)) session) ≡ ok (int64 (pos 1))
get-set_example = get-set (codes "token.id") (int64 (pos 1)) session

get-set_ne_example :
    get (codes "user.id") (set (codes "user.name") (string (codes "a")) session)
    ≡ get (codes "user.id") session
unfolding split text_eq
get-set_ne_example =
    get-set_ne (codes "user.name") (codes "user.id") (string (codes "a")) session tt
