-- ===== src/Api.antt =====
-- dashboard/internal/api/handlers.go: the handlers that ask the daemon for something, and the routes
-- of dashboard/cmd/pispot-ui/main.go.
pub mod Guards
use pispot.Base.{
  ℕ, Bool, true, false, not, ◌||◌, Option, none, some, List, [], ◌∷◌, ◌++◌, if◌then◌else◌,
}
use pispot.Authz.Client.{
  Helper, call_op, call_wifi_list, call_wifi_add, call_wifi_remove, call_wifi_reload,
}
use pispot.Go.Bytes.{Bytes, lit, equal, is_empty, trim_prefix, has_prefix}
use pispot.Http.{HttpRequest, HttpResponse, Body, text, json_error, json_networks, http_error}
use pispot.Result.{Result, ok, err}
use pispot.Socket.{op_wan_up, op_wan_down}
use pispot.Wifi.Config.{Network}

abbrev json_type : Bytes × Bytes
json_type = (lit "Content-Type", lit "application/json; charset=utf-8")

abbrev pub json_ok : HttpResponse
json_ok = record { status = 200; headers = json_type ∷ []; body = text (lit "{\"ok\":true}\n") }

abbrev pub json_err : ℕ → Bytes → HttpResponse
json_err status message = record {
  status = status;
  headers = json_type ∷ [];
  body = json_error message;
}

abbrev method_not_allowed : HttpResponse
method_not_allowed = http_error [] 405 (lit "method not allowed")

abbrev forbidden : HttpResponse
forbidden = http_error [] 403 (lit "forbidden")

abbrev not_configured : HttpResponse
not_configured = http_error [] 503 (lit "auth socket not configured")

abbrev admin : Bytes
admin = lit "admin"

-- What the handlers answer behind the call of the daemon.
list_answer : Result (List Network) → HttpResponse
list_answer (err e) = json_err 503 e
list_answer (ok networks) = record {
  status = 200;
  headers = json_type ∷ [];
  body = json_networks networks;
}

pub done_answer : ℕ → Result (Unit {0}) → HttpResponse
done_answer status (err e) = json_err status e
done_answer status (ok _) = json_ok

op_answer : Result (Bool × Bytes) → HttpResponse
op_answer (err e) = http_error [] 503 (lit "helper unavailable")
op_answer (ok (done, message)) = if done then json_ok else json_err 500 message

-- `wifiAdminCheck`: the answer that it writes, or nothing if it returns true.
pub wifi_admin_check : Bytes → Bytes → HttpRequest → Bytes → Option HttpResponse
wifi_admin_check socket method r role =
    if not (equal r.method method)
    then some method_not_allowed
    else if not (equal role admin)
    then some forbidden
    else if is_empty socket
    then some not_configured
    else none

module _ {S : Type 0} (socket : Bytes) (helper : Helper S) where
  -- A handler, with the role of the request's context.
  abbrev Handler : Type 0
  Handler = HttpRequest → Bytes → S → HttpResponse × S

  guarded : Option HttpResponse → (S → HttpResponse × S) → S → HttpResponse × S
  guarded (some refusal) rest s = (refusal, s)
  guarded none rest s = rest s

  -- Behind the decoding of the body.
  add_network : Option Network → S → HttpResponse × S
  add_network none s = (json_err 400 (lit "invalid JSON body"), s)
  add_network (some n) s =
      let (r, s') = call_wifi_add helper n.ssid n.psk s in (done_answer 400 r, s')

  list_networks : S → HttpResponse × S
  list_networks s = let (r, s') = call_wifi_list helper s in (list_answer r, s')

  pub wifi_networks : Handler
  wifi_networks r role s =
      if equal r.method (lit "GET")
      then (if not (equal role admin)
          then (forbidden, s)
          else if is_empty socket
          then (not_configured, s)
          else list_networks s)
      else if equal r.method (lit "POST")
      then guarded (wifi_admin_check socket (lit "POST") r role) (add_network r.body) s
      else (method_not_allowed, s)

  remove_network : Bytes → S → HttpResponse × S
  remove_network ssid s =
      if is_empty ssid
      then (json_err 400 (lit "SSID required in path"), s)
      else (let (r, s') = call_wifi_remove helper ssid s in (done_answer 400 r, s'))

  pub wifi_network : Handler
  wifi_network r role s =
      guarded (wifi_admin_check socket (lit "DELETE") r role)
        (remove_network (trim_prefix r.path (lit "/api/wifi/networks/"))) s

  reload_networks : S → HttpResponse × S
  reload_networks s = let (r, s') = call_wifi_reload helper s in (done_answer 503 r, s')

  pub wifi_reload : Handler
  wifi_reload r role s = guarded (wifi_admin_check socket (lit "POST") r role) reload_networks s

  run_op : Bytes → S → HttpResponse × S
  run_op op s = let (r, s') = call_op helper op s in (op_answer r, s')

  pub wan_op : Bytes → Handler
  wan_op op r role s =
      if not (equal r.method (lit "POST"))
      then (method_not_allowed, s)
      else if not (equal role admin)
      then (forbidden, s)
      else if is_empty socket
      then (not_configured, s)
      else run_op op s

  -- The routes of http.ServeMux. `page` answers those that do not call the daemon: the static files,
  -- /api/stats and /healthz.
  pub mux : (HttpRequest → Bytes → HttpResponse) → Handler
  mux page r role s =
      if equal r.path (lit "/api/wan/up")
      then wan_op op_wan_up r role s
      else if equal r.path (lit "/api/wan/down")
      then wan_op op_wan_down r role s
      else if equal r.path (lit "/api/wifi/networks")
      then wifi_networks r role s
      else if has_prefix r.path (lit "/api/wifi/networks/")
      then wifi_network r role s
      else if equal r.path (lit "/api/wifi/reload")
      then wifi_reload r role s
      else (page r role, s)
