-- ===== src/Settings/Accepted.antt =====
-- What holds of the parts of the configuration that are accepted.
use ecs_gatus_app.Base.{
  ◌≡◌, ◌≢◌, refl, ◌↔◌, true, false, Option, none, some, List, [], ◌∷◌, All, arith,
}
use ecs_gatus_app.Base.Int.{pos, ◌≤ℤ◌}
use ecs_gatus_app.Base.Text.{codes, text_eq, is_empty}
use ecs_gatus_app.Base.Eq.{text_key}
use ecs_gatus_app.Base.Assoc.{member}
use ecs_gatus_app.Settings.{
  Storage, type_memory, type_sqlite, type_postgres, set_limits, validate_storage, CheckerSettings,
  has_suffix, check_target, validate_checker, Announcement, AnnouncementError, valid_types,
  validate_announcement, after_announcement, validate_announcements,
}

-- A store can be made from it: the limits are positive, an SQL store has a path, the store in memory
-- has none.
record IsUsable (c : Storage) : Type 0 where
  pub typed : is_empty c.type ≡ false
  pub holds_a_result : pos 1 ≤ℤ c.maximum_number_of_results
  pub holds_an_event : pos 1 ≤ℤ c.maximum_number_of_events
  pub sqlite_path : text_eq c.type type_sqlite ≡ true → is_empty c.path ≡ false
  pub postgres_path : text_eq c.type type_postgres ≡ true → is_empty c.path ≡ false
  pub memory_path : text_eq c.type type_memory ≡ true → is_empty c.path ≡ true

-- A storage configuration for which ValidateAndSetDefaults returns no error has, afterwards, a type,
-- limits of at least one result and one event, a path if it is for SQLite or PostgreSQL, and no path
-- if it is for the store in memory.
validate_storage-IsUsable :
    (c : Storage) → (validate_storage c).1 ≡ none → IsUsable (validate_storage c).0
unfolding validate_storage set_limits
validate_storage-IsUsable c h = record {
  typed = ground arith;
  holds_a_result = ground arith;
  holds_an_event = ground arith;
  sqlite_path = λ t. ground arith;
  postgres_path = λ t. ground arith;
  memory_path = λ t. ground arith;
}

-- ValidateAndSetDefaults of the connectivity configuration returns no error if and only if the
-- interval that it leaves is at least five seconds and the target ends with ":53".
pub validate_checker_iff :
    (c : CheckerSettings)
    → ((validate_checker c).1 ≡ none) ↔ (
        (pos 5_000_000_000 ≤ℤ (validate_checker c).0.interval)
        × (has_suffix c.target (codes ":53") ≡ true))
unfolding validate_checker check_target
validate_checker_iff c = (λ h. (ground arith, ground arith), λ h. ground arith)

pub record IsShown (a : Announcement) : Type 0 where
  pub has_message : is_empty a.message ≡ false
  pub known_type : member a.type valid_types ≡ true
  pub dated : a.timestamp ≢ 0

IsShown-validate_announcement :
    (a : Announcement) → (validate_announcement a).1 ≡ none → IsShown (validate_announcement a).0
unfolding validate_announcement
IsShown-validate_announcement a h = record {
  has_message = ground arith;
  known_type = ground arith;
  dated = ground arith;
}

after_announcement-IsShown :
    (x : Announcement × Option AnnouncementError) (others : List Announcement)
    (rest : List Announcement × Option AnnouncementError)
    → (x.1 ≡ none → IsShown x.0)
    → (rest.1 ≡ none → All IsShown rest.0)
    → (after_announcement x others rest).1 ≡ none
    → All IsShown (after_announcement x others rest).0
unfolding after_announcement
after_announcement-IsShown (b, some e) others rest v w h = absurd (ground arith)
after_announcement-IsShown (b, none) others (bs, e) v w h = (v refl, w h)

-- Announcements for which ValidateAndSetDefaults returns no error have, afterwards, each a message,
-- one of the five types and a timestamp that is not zero.
pub validate_announcements-IsShown :
    (announcements : List Announcement)
    → (validate_announcements announcements).1 ≡ none
    → All IsShown (validate_announcements announcements).0
unfolding validate_announcements
validate_announcements-IsShown [] h = tt
validate_announcements-IsShown (a ∷ others) h =
    after_announcement-IsShown (validate_announcement a) others (validate_announcements others)
      (IsShown-validate_announcement a) (validate_announcements-IsShown others) h
