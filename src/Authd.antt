-- ===== src/Authd.antt =====
-- host/cmd/pispot-authd/main.go and host/internal/auth/pam.go: the handlers of the daemon, over the
-- state that they change, and `handle` of host/internal/socket/server.go.
pub mod Auth
pub mod Settings
pub mod Serve
use pispot.Base.{Bool, true, false, ◌||◌, Option, none, some, List, [], ◌∷◌, ◌++◌, if◌then◌else◌}
use pispot.Go.Bytes.{Bytes, lit, equal, is_empty}
use pispot.Go.Space.{trim_space}
use pispot.Go.Unicode.{Unicode}
use pispot.Groups.{Config, Names, Resolution, role, not_authorized, lookup_failed, resolve}
use pispot.Host.{Argv, Outcome, Host, Action}
use pispot.Result.{Result, ok, err}
use pispot.Socket.{
  Request, Response, no_response, refused, succeeded, op_auth, op_wan_up, op_wan_down, op_wifi_list,
  op_wifi_add, op_wifi_remove, op_wifi_reload,
}
use pispot.Wan.{up, down, reload}
use pispot.Wifi.Config.{Network}
use pispot.Wifi.Store.{Files, Os, list, add, remove}

-- What the daemon runs on, for the time of one request.
pub record Env : Type 0 where
  pub unicode : Unicode
  pub os : Os
  pub host : Host
  pub names : Names
  -- pamtester, on its arguments and standard input
  pub pam : Argv → Bytes → Outcome
  pub groups : Config

-- What the requests change: the configuration files, and the commands that the operations on the WAN
-- link and on wlan1 ran. The pamtester of an authentication is not among them: it is the parameter `pam`.
pub record Daemon : Type 0 where
  pub files : Files
  pub ran : List Argv

pam_result : Bytes → Option Bytes → Result (Unit {0})
pam_result output none = ok tt
pam_result output (some e) =
    err (lit "pamtester: " ++ (e ++ (lit " (output: " ++ (trim_space output ++ lit ")"))))

-- auth.Authenticate
pub authenticate : Env → Bytes → Bytes → Bytes → Result (Unit {0})
unfolding pam_result
authenticate env service username password =
    let r =
      env.pam (lit "pamtester" ∷ service ∷ username ∷ lit "authenticate" ∷ [])
        (password ++ lit "\n") in
    pam_result r.output r.failed

-- `handleAuth` behind groups.Resolve, and behind auth.Authenticate.
pub answer : Bytes → Resolution → Response
answer username (role r) = record succeeded { username = username; role = r }
answer username not_authorized = refused (lit "not authorized")
answer username (lookup_failed e) = refused (lit "authorization error")

pub authorize : Env → Bytes → Result (Unit {0}) → Response
authorize env username (err e) = refused (lit "authentication failed")
authorize env username (ok _) = answer username (resolve env.unicode env.names env.groups username)

pub handle_auth : Env → Request → Response
handle_auth env req =
    if is_empty req.username || is_empty req.password
    then refused (lit "username and password required")
    else authorize env req.username (authenticate env (lit "pispot") req.username req.password)

-- The answer to an operation that gives nothing but an error.
pub reply : Result (Unit {0}) → Response
reply (ok _) = succeeded
reply (err e) = refused e

pub reply_list : Result (List Network) → Response
reply_list (ok networks) = record succeeded { networks = networks }
reply_list (err e) = refused e

pub handle_wan_op : Action → Daemon → Response × Daemon
handle_wan_op op d = let (r, ran) = op d.ran in (reply r, record d { ran = ran })

pub handle_wifi_list : Env → Daemon → Response × Daemon
handle_wifi_list env d = (reply_list (list env.os d.files), d)

pub handle_wifi_add : Env → Request → Daemon → Response × Daemon
handle_wifi_add env req d =
    let (r, files) = add env.unicode env.os req.ssid req.psk d.files in
    (reply r, record d { files = files })

pub handle_wifi_remove : Env → Request → Daemon → Response × Daemon
handle_wifi_remove env req d =
    let (r, files) = remove env.unicode env.os req.ssid d.files in
    (reply r, record d { files = files })

pub handle_wifi_reload : Env → Daemon → Response × Daemon
handle_wifi_reload env d = let (r, ran) = reload env.host d.ran in (reply r, record d { ran = ran })

pub handle_request : Env → Request → Daemon → Response × Daemon
handle_request env req d =
    if equal req.op op_auth
    then (handle_auth env req, d)
    else if equal req.op op_wan_up
    then handle_wan_op (up env.host) d
    else if equal req.op op_wan_down
    then handle_wan_op (down env.host) d
    else if equal req.op op_wifi_list
    then handle_wifi_list env d
    else if equal req.op op_wifi_add
    then handle_wifi_add env req d
    else if equal req.op op_wifi_remove
    then handle_wifi_remove env req d
    else if equal req.op op_wifi_reload
    then handle_wifi_reload env d
    else (refused (lit "unknown op"), d)

-- `handle` of server.go, on what json.Decoder made of the connection's bytes.
pub handle : Env → Option Request → Daemon → Response × Daemon
handle env none d = (refused (lit "invalid request"), d)
handle env (some req) d = handle_request env req d

-- All that `handle` computes with, but for the operations of Wan, Wifi and Groups.
unfoldable pub handling : Unit {0}
unfolding handle handle_request handle_wifi_reload handle_wifi_remove handle_wifi_add
    handle_wifi_list handle_wan_op reply reply_list handle_auth authorize answer authenticate
handling = tt
