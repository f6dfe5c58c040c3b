-- ===== src/Health/Sample.antt =====
-- Answers of the network, and endpoints, for examples: one called over HTTP, and one of a DNS query.
use ecs_gatus_app.Base.{◌≡◌, refl, true, false, none, some, [], ◌∷◌}
use ecs_gatus_app.Base.Int.{pos}
use ecs_gatus_app.Base.Text.{Text, codes, text_eq, contains_any, to_upper, trim_space}
use ecs_gatus_app.Base.Strings.{split_by}
use ecs_gatus_app.Base.Outcome.{ok}
use ecs_gatus_app.Client
use ecs_gatus_app.Endpoint.{Endpoint}
use ecs_gatus_app.Endpoint.Parts.{get_default_config}
use ecs_gatus_app.Golib.Sample.{lib}
use ecs_gatus_app.Maintenance
use ecs_gatus_app.Health.Call.{Network}
use ecs_gatus_app.Health.Defaults.{Outside, validate_and_set_defaults}
use ecs_gatus_app.Health.{Readings}

abbrev pub network : Network
network = record {
  elapsed = pos 5_000_000;
  random_string = λ n. [];
  query_dns = λ t n u. ((false, [], []), some (codes "no answer"));
  can_perform_start_tls = λ a. ((true, pos 0), none);
  can_perform_tls = λ a b. ((true, [], pos 0), none);
  can_create_network_connection = λ n a b. (true, []);
  can_create_sctp_connection = λ a. true;
  ping = λ a. (true, pos 0);
  query_web_socket = λ u b h. ((true, []), none);
  check_ssh_banner = λ a. ((true, pos 0), none);
  can_create_ssh_connection = λ a c. (true, none);
  execute_ssh_command = λ b. ((true, pos 0, []), none);
  perform_grpc_health_check = λ a t. ok (true, codes "SERVING", pos 1);
  do_request = λ r. ok (record {
    status_code = pos 200;
    certificate_expiration = none;
    body = [];
    read_error = none;
  });
}

abbrev pub readings : Readings
readings = record {
  parse_url = λ u. ok (codes "example.org", []);
  lookup_ip = λ h. ok (codes "10.0.0.1");
  get_domain_expiration = λ h. (pos 0, none);
  network = network;
  now = 7;
}

abbrev pub endpoint : Text → Endpoint
endpoint url = record {
  enabled = none;
  name = codes "site";
  group = [];
  url = url;
  method = codes "GET";
  body = [];
  graph_ql = false;
  headers = [];
  interval = pos 60_000_000_000;
  conditions = codes "[STATUS] == 200" ∷ [];
  dns_config = none;
  ssh_config = none;
  client_config = none;
  ui_config = some get_default_config;
  alerts = [];
  maintenance_windows = [];
  number_of_failures_in_a_row = 0;
  number_of_successes_in_a_row = 0;
  last_reminder_sent = 0;
  store = [];
  always_run = false;
}

abbrev pub outside : Outside
outside = record {
  lib = lib;
  load_key_pair = λ c k. none;
  is_query_type = λ t. text_eq t (codes "A");
  new_request = λ m u. none;
  load_location = λ t. none;
}

-- A query for the addresses of example.org, with a window of maintenance.
abbrev pub query : Endpoint
query = record (endpoint (codes "8.8.8.8:53")) {
  dns_config = some (record { query_type = codes "A"; query_name = codes "example.org" });
  maintenance_windows = Maintenance.default_config ∷ [];
}

abbrev pub queried : Endpoint
queried = record query {
  dns_config = some (record { query_type = codes "A"; query_name = codes "example.org." });
  client_config = some Client.get_default_config;
  headers = (codes "User-Agent", codes "Gatus/1.0") ∷ [];
}

pub query_accepted : validate_and_set_defaults outside query ≡ ok queried
unfolding validate_and_set_defaults contains_any split_by to_upper trim_space
query_accepted = refl
