-- ===== src/Health/Call.antt =====
-- call and buildHTTPRequest of app/config/endpoint/endpoint.go. What the network answers is a
-- record of functions, one for each function of app/client that is called; they stand for the
-- answers during one call, the time that it took and the random strings.
use ecs_gatus_app.Base.{ℕ, Bool, ◌&&◌, Option, none, some, List, [], ◌∷◌, ◌++◌, if◌then◌else◌}
use ecs_gatus_app.Base.Int.{ℤ, pos, ltb_ℤ}
use ecs_gatus_app.Base.Text.{Text, codes, is_empty, has_prefix, trim_prefix}
use ecs_gatus_app.Base.Outcome.{Outcome, ok, err}
use ecs_gatus_app.Endpoint.{Endpoint, Result, add_error}
use ecs_gatus_app.Endpoint.Parts.{DnsConfig, SshConfig}
use ecs_gatus_app.Gontext.{string, entry, end}
use ecs_gatus_app.Golib.{Golib}
use ecs_gatus_app.Health.Kind.{
  EndpointType, type_dns, type_tcp, type_sctp, type_udp, type_icmp, type_starttls, type_tls,
  type_http, type_grpc, type_ws, type_ssh, type_unknown, equal_fold, has_header, needs_to_read_body,
}
use ecs_gatus_app.Health.Templates.{get_parsed_body}

pub record Request : Type 0 where
  pub method : Text
  pub url : Text
  pub body : Text
  pub headers : List (Text × Text)
  pub host : Option Text

-- The status, the time until the first certificate expires if there is one, and the body, with the
-- error that ended its reading.
pub record Response : Type 0 where
  pub status_code : ℤ
  pub certificate_expiration : Option ℤ
  pub body : Text
  pub read_error : Option Text

pub record Network : Type 0 where
  pub elapsed : ℤ
  pub random_string : ℕ → Text
  pub query_dns : Text → Text → Text → (Bool × Text × Text) × Option Text
  pub can_perform_start_tls : Text → (Bool × ℤ) × Option Text
  pub can_perform_tls : Text → Text → (Bool × Text × ℤ) × Option Text
  pub can_create_network_connection : Text → Text → Text → Bool × Text
  pub can_create_sctp_connection : Text → Bool
  pub ping : Text → Bool × ℤ
  pub query_web_socket : Text → Text → List (Text × Text) → (Bool × Text) × Option Text
  pub check_ssh_banner : Text → (Bool × ℤ) × Option Text
  pub can_create_ssh_connection : Text → SshConfig → Bool × Option Text
  pub execute_ssh_command : Text → (Bool × ℤ × Text) × Option Text
  pub perform_grpc_health_check : Text → Bool → Outcome Text (Bool × Text × ℤ)
  pub do_request : Request → Outcome Text Response

-- The last header of that name, in the order in which Go ranges over the map.
unfoldable pub host_of : List (Text × Text) → Option Text
host_of [] = none
host_of ((k, v) ∷ headers) = elim (host_of headers) [
  | some host ↦ some host
  | none ↦ if equal_fold k (codes "Host") then some v else none
]

-- The text of a body, empty where json.Marshal fails.
abbrev marshalled : Outcome Text Text → Text
marshalled (ok t) = t
marshalled (err e) = []

unfoldable pub build_http_request : Golib → (ℕ → Text) → Endpoint → Request
unfolding get_parsed_body host_of
build_http_request lib random e = record {
  method = e.method;
  url = e.url;
  body =
      if e.graph_ql
      then marshalled (lib.marshal (entry (codes "query") (string (get_parsed_body random e)) end))
      else get_parsed_body random e;
  headers = e.headers;
  host = host_of e.headers;
}

-- The body is kept where something reads it.
abbrev keep_body : Endpoint → Text → Result → Result
keep_body e body r = if needs_to_read_body e then record r { body = body } else r

abbrev add_read_error : Option Text → Result → Result
add_read_error none r = r
add_read_error (some e) r = add_error r (codes "error reading response body:" ++ e)

after_response : Endpoint → Response → Result → Result
unfolding needs_to_read_body add_error
after_response e answer r =
    let expiring = elim answer.certificate_expiration as (λ o. Result) [
      | none ↦ r
      | some t ↦ record r { certificate_expiration = t }
    ] in
    let answered = record expiring {
      http_status = answer.status_code;
      connected = ltb_ℤ (pos 0) answer.status_code;
    } in
    if needs_to_read_body e
    then add_read_error answer.read_error (record answered { body = answer.body })
    else answered

-- `if err != nil { result.AddError(err.Error()); return }`, and what follows.
finish : Option Text → Result → Result → Result
unfolding add_error
finish (some x) r finished = add_error r x
finish none r finished = finished

module _ (lib : Golib) (net : Network) where
  call_dns : Endpoint → DnsConfig → Result → Result
  unfolding finish
  call_dns e d r =
      let ((connected, code, body), x) = net.query_dns d.query_type d.query_name e.url in
      let answered = record r { connected = connected; dns_r_code = code; body = body } in
      finish x answered (record answered { duration = net.elapsed })

  call_starttls : Endpoint → Result → Result
  unfolding finish
  call_starttls e r =
      let ((connected, expiration), x) =
        net.can_perform_start_tls (trim_prefix e.url (codes "starttls://")) in
      let answered = record r { connected = connected } in
      finish x answered
        (record answered { duration = net.elapsed; certificate_expiration = expiration })

  call_tls : Endpoint → Result → Result
  unfolding finish
  call_tls e r =
      let ((connected, body, expiration), x) =
        net.can_perform_tls (trim_prefix e.url (codes "tls://"))
          (get_parsed_body net.random_string e) in
      let answered = record r { connected = connected; body = body } in
      finish x answered
        (record answered { duration = net.elapsed; certificate_expiration = expiration })

  -- A connection by tcp or udp.
  call_connection : Text → Text → Endpoint → Result → Result
  call_connection network prefix e r =
      let (connected, body) =
        net.can_create_network_connection network (trim_prefix e.url prefix)
          (get_parsed_body net.random_string e) in
      record r { connected = connected; body = body; duration = net.elapsed }

  call_web_socket : Endpoint → Result → Result
  unfolding has_header finish
  call_web_socket e r =
      let headers =
        if has_header e.headers (codes "User-Agent")
        then e.headers
        else e.headers ++ (codes "User-Agent", codes "Gatus/1.0") ∷ [] in
      let ((connected, body), x) =
        net.query_web_socket e.url (get_parsed_body net.random_string e) headers in
      let answered = record r { connected = connected; body = body } in
      finish x answered (record answered { duration = net.elapsed })

  call_ssh_banner : Endpoint → Result → Result
  unfolding finish
  call_ssh_banner e r =
      let ((connected, status), x) = net.check_ssh_banner (trim_prefix e.url (codes "ssh://")) in
      let answered = record r { connected = connected; http_status = status } in
      finish x answered (record answered { success = connected; duration = net.elapsed })

  call_ssh_command : Endpoint → Result → Result
  unfolding finish
  call_ssh_command e r =
      let ((success, status, output), x) =
        net.execute_ssh_command (get_parsed_body net.random_string e) in
      let answered = record r { success = success; http_status = status } in
      finish x answered (record (keep_body e output answered) { duration = net.elapsed })

  call_ssh : Endpoint → Option SshConfig → Result → Result
  unfolding call_ssh_banner call_ssh_command finish
  call_ssh e none r = call_ssh_banner e r
  call_ssh e (some c) r =
      let (connected, x) = net.can_create_ssh_connection (trim_prefix e.url (codes "ssh://")) c in
      let answered = record r { connected = connected } in
      if is_empty c.username && is_empty c.password && is_empty c.private_key
      then call_ssh_banner e r
      else finish x answered (call_ssh_command e answered)

  call_grpc : Endpoint → Result → Result
  unfolding add_error needs_to_read_body
  call_grpc e r =
      let address = trim_prefix (trim_prefix e.url (codes "grpcs://")) (codes "grpc://") in
      elim (net.perform_grpc_health_check address (has_prefix e.url (codes "grpcs://"))) [
        | err x ↦ add_error r x
        | ok (connected, status, duration) ↦
            keep_body e (codes "{\"status\":\"" ++ (status ++ codes "\"}"))
              (record r { connected = connected; duration = duration })
      ]

  call_http : Endpoint → Result → Result
  unfolding build_http_request after_response add_error
  call_http e r = elim (net.do_request (build_http_request lib net.random_string e)) [
    | err x ↦ add_error (record r { duration = net.elapsed }) x
    | ok answer ↦ after_response e answer (record r { duration = net.elapsed })
  ]

  -- The branches of call on the type. For an unknown type no request is built, and the call of Do
  -- panics: none.
  unfoldable pub call : Endpoint → EndpointType → Result → Option Result
  unfolding call_dns call_starttls call_tls call_connection call_web_socket call_ssh call_grpc
      call_http
  call e type_dns r = elim e.dns_config [ none ↦ none | some d ↦ some (call_dns e d r) ]
  call e type_starttls r = some (call_starttls e r)
  call e type_tls r = some (call_tls e r)
  call e type_tcp r = some (call_connection (codes "tcp") (codes "tcp://") e r)
  call e type_udp r = some (call_connection (codes "udp") (codes "udp://") e r)
  call e type_sctp r = some (record r {
    connected = net.can_create_sctp_connection (trim_prefix e.url (codes "sctp://"));
    duration = net.elapsed;
  })
  call e type_icmp r =
      let (connected, duration) = net.ping (trim_prefix e.url (codes "icmp://")) in
      some (record r { connected = connected; duration = duration })
  call e type_ws r = some (call_web_socket e r)
  call e type_ssh r = some (call_ssh e e.ssh_config r)
  call e type_grpc r = some (call_grpc e r)
  call e type_http r = some (call_http e r)
  call e type_unknown r = none
