-- ===== src/Settings.antt =====
-- The validation of smaller parts of the configuration: app/storage/config.go and
-- app/storage/type.go, app/config/connectivity/connectivity.go,
-- app/config/announcement/announcement.go. What is checked is changed in place, also where an error
-- is returned.
pub mod Accepted
use ecs_gatus_app.Base.{
  ℕ, ◌-◌, Bool, true, false, not, ◌&&◌, ◌||◌, Option, none, some, List, [], ◌∷◌, ◌==◌, length, drop,
  ltb, if◌then◌else◌,
}
use ecs_gatus_app.Base.Int.{ℤ, pos, leb_ℤ, ltb_ℤ, eqb_ℤ}
use ecs_gatus_app.Base.Text.{Text, codes, text_eq, is_empty}
use ecs_gatus_app.Base.Time.{Time}
use ecs_gatus_app.Base.Eq.{text_key}
use ecs_gatus_app.Base.Assoc.{member}

-- storage.Config.
pub record Storage : Type 0 where
  pub path : Text
  pub type : Text
  pub caching : Bool
  pub maximum_number_of_results : ℤ
  pub maximum_number_of_events : ℤ

pub data StorageError : Type 0 where
  err_sql_storage_requires_path : StorageError
  err_memory_storage_does_not_support_path : StorageError

abbrev pub type_memory : Text
type_memory = codes "memory"

abbrev pub type_sqlite : Text
type_sqlite = codes "sqlite"

abbrev pub type_postgres : Text
type_postgres = codes "postgres"

-- The limits, where they are not positive.
set_limits : Storage → Storage
set_limits c = record c {
  maximum_number_of_results =
      if leb_ℤ c.maximum_number_of_results (pos 0) then pos 100 else c.maximum_number_of_results;
  maximum_number_of_events =
      if leb_ℤ c.maximum_number_of_events (pos 0) then pos 50 else c.maximum_number_of_events;
}

unfoldable pub validate_storage : Storage → Storage × Option StorageError
unfolding set_limits
validate_storage c =
    let t = if is_empty c.type then type_memory else c.type in
    let d = record c { type = t } in
    if (text_eq t type_postgres || text_eq t type_sqlite) && is_empty c.path
    then (d, some err_sql_storage_requires_path)
    else if text_eq t type_memory && not (is_empty c.path)
    then (d, some err_memory_storage_does_not_support_path)
    else (set_limits d, none)

-- connectivity.Checker, as it is configured.
pub record CheckerSettings : Type 0 where
  pub target : Text
  pub interval : ℤ

pub data ConnectivityError : Type 0 where
  err_invalid_interval : ConnectivityError
  err_invalid_dns_target : ConnectivityError

-- strings.HasSuffix(s, suffix).
abbrev pub has_suffix : Text → Text → Bool
has_suffix s suffix =
    not (ltb (length s) (length suffix)) && text_eq (drop (length s - length suffix) s) suffix

-- Where the interval is refused, the target is not looked at.
check_target : CheckerSettings → CheckerSettings × Option ConnectivityError
check_target c =
    (c, if has_suffix c.target (codes ":53") then none else some err_invalid_dns_target)

unfoldable pub validate_checker : CheckerSettings → CheckerSettings × Option ConnectivityError
unfolding check_target
validate_checker c =
    if eqb_ℤ c.interval (pos 0)
    then check_target (record c { interval = pos 60_000_000_000 })
    else if ltb_ℤ c.interval (pos 5_000_000_000)
    then (c, some err_invalid_interval)
    else check_target c

pub record Announcement : Type 0 where
  pub timestamp : Time
  pub type : Text
  pub message : Text
  pub archived : Bool

pub data AnnouncementError : Type 0 where
  err_invalid_announcement_type : AnnouncementError
  err_empty_message : AnnouncementError
  err_missing_timestamp : AnnouncementError

abbrev pub type_none : Text
type_none = codes "none"

abbrev pub valid_types : List Text
valid_types =
    codes "outage" ∷ codes "warning" ∷ codes "information" ∷ codes "operational" ∷ type_none ∷ []

unfoldable pub validate_announcement : Announcement → Announcement × Option AnnouncementError
validate_announcement a =
    let b = record a { type = if is_empty a.type then type_none else a.type } in
    if is_empty a.message
    then (a, some err_empty_message)
    else if not (member b.type valid_types)
    then (b, some err_invalid_announcement_type)
    else if b.timestamp == 0
    then (b, some err_missing_timestamp)
    else (b, none)

-- The rest of the announcements is left as it is where there is an error.
after_announcement :
    Announcement × Option AnnouncementError
    → List Announcement
    → List Announcement × Option AnnouncementError
    → List Announcement × Option AnnouncementError
after_announcement (b, some e) others rest = (b ∷ others, some e)
after_announcement (b, none) others (bs, e) = (b ∷ bs, e)

unfoldable pub validate_announcements :
    List Announcement → List Announcement × Option AnnouncementError
unfolding after_announcement
validate_announcements [] = ([], none)
validate_announcements (a ∷ others) =
    after_announcement (validate_announcement a) others (validate_announcements others)
