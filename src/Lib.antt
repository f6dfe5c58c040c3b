-- ===== src/Lib.antt =====
-- A verification library for Gatus, a monitor that checks endpoints and alerts. Paths are from the
-- root of the repository.
--
-- The program. app/watchdog runs a goroutine for each endpoint, external endpoint and suite, which
-- at each tick makes a health check, inserts the result into the store and hands it to the
-- alerting, unless a maintenance window is on. The results of external endpoints can also be pushed
-- to app/api. The alerting counts failures and successes in a row, calls the providers of the
-- alerts that are due and marks alerts as triggered. The store keeps for each key the last results,
-- the events and hourly statistics, and serves pages of them to the API. A suite runs its endpoints
-- one after another with a shared context. A health check calls the endpoint and evaluates its
-- conditions, whose placeholders stand for parts of the result.
--
-- The model, by file:
--   Base          helpers: integers, texts as lists of bytes, time, outcomes, maps as
--                 association lists.
--   Alert         app/alerting/alert/alert.go, and the merging in app/alerting/provider/provider.go.
--   Api           app/api/util.go (Pages), the health badges of app/api/badge.go (Badge) and
--                 the colour of its response time badge (ResponseTime).
--   Key           app/config/key/key.go.
--   Client        the configuration of app/client/config.go and its validation.
--   Endpoint      the data of app/config/endpoint: results, events, uptime, statuses, endpoints,
--                 the configurations in its ui, dns and ssh; and their validation and that of
--                 external endpoints.
--   Maintenance   app/config/maintenance/maintenance.go.
--   Gontext       app/config/gontext/gontext.go.
--   Golib         what is taken of Go's standard library without a model.
--   Jsonpath      app/jsonpath/jsonpath.go.
--   Pattern       app/pattern/pattern.go.
--   Placeholder   app/config/endpoint/placeholder.go.
--   Condition     app/config/endpoint/condition.go: Equality is isEqual, Resolving is
--                 sanitizeAndResolveWithContext, Display is prettify and formatDuration.
--   Health        app/config/endpoint/endpoint.go: EvaluateHealthWithContext; Call is call, Templates
--                 the replacing of placeholders in requests, Defaults is ValidateAndSetDefaults.
--   Settings      the validation in app/storage/config.go, app/config/connectivity and
--                 app/config/announcement.
--   Suite         app/config/suite: Execute and what it calls; Extraction is
--                 extractValueForStorage, Defaults is ValidateAndSetDefaults.
--   Memory        app/storage/store/memory and app/storage/store/common: Paging is
--                 getStartAndEndIndex, HourlyStats is processUptimeAfterResult, History is
--                 AddResult, Store has the operations of the store.
--   Watchdog      app/watchdog: Alerting is HandleAlerting, Checks is the three execute functions,
--                 Push is CreateExternalEndpointResult of app/api/external_endpoint.go.
-- Functions keep their names in snake case. A pointer that may be nil is an Option, a value with an
-- error an Outcome, a method that changes its receiver a function that returns the new value. The
-- calls to providers, to the store and to the metrics are lists of effects or actions, and what
-- comes from the clock, the network and the environment is a record of readings. Code behind a
-- lock is one step.
--
-- Numbers. Durations and Go ints are integers; where arithmetic can wrap (page indices, the counts
-- of hourly statistics) the 64 bits are written out. Instants are nanoseconds since the year 1. The
-- counters of results in a row are natural numbers: they do not overflow in a lifetime.
--
-- Texts. A text is the list of the bytes of a Go string. Lower and upper case and white space are
-- those of ASCII, where Go knows those of Unicode: in keys, placeholders, and wherever a text is
-- trimmed.
--
-- Fuel. The queries over a time range go through it by hours, on fuel: one round for each hour of
-- the range and one more, after which the loop would stop (Memory.Store.Rounds). Evaluating a JSON
-- path has fuel for the characters of the path (Jsonpath.Terminates), splitting and replacing in a
-- text for its characters, printing a number for 20 digits.
--
-- Parameters. The third-party cache is an interface (Memory.Cache) that an association list meets;
-- the time zone database, the parsing of durations, floating-point division, and a health check are
-- functions that the definitions take; so are the parsing of JSON, the decoding of keys in requests
-- and the functions of the network client (Golib, Health.Call). Execute of a suite takes the
-- extraction of values as a function, since that can panic.
--
-- Not modelled: the SQL store (its logic is in SQL), the network client, the adapters of the
-- providers, metrics, security, the rest of the API, the loading of configuration files, and
-- the loops that wait for a ticker, nor the sorting of announcements.
pub mod Base
pub mod Alert
pub mod Api
pub mod Key
pub mod Client
pub mod Endpoint
pub mod Maintenance
pub mod Memory
pub mod Gontext
pub mod Golib
pub mod Jsonpath
pub mod Pattern
pub mod Placeholder
pub mod Condition
pub mod Health
pub mod Settings
pub mod Suite
pub mod Watchdog
