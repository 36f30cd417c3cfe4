-- ===== src/Tests/Serve.antt =====
-- pispot-authd from its start to a signal, with the socket of an earlier run in its way, and the pages of
-- pispot-ui.
use pispot.Base.{◌≡◌, refl, ◌⊎◌, true, false, Option, none, some, List, [], ◌∷◌, if◌then◌else◌}
use pispot.Authd.Serve.{Accept, accepted, closed, failed, Calls, Server, Connection, Work, main}
use pispot.Authd.Serve.Restricted.{Refuses, Serves, main-Serves}
use pispot.Authd.Settings.{load_config}
use pispot.Go.Bytes.{Bytes, lit, equal}
use pispot.Http.{HttpRequest, HttpResponse, text}
use pispot.Result.{Result, ok}
use pispot.Socket.{request, op_wan_up}
use pispot.Tests.Daemon.{env}
use pispot.Tests.Dashboard.{post}
use pispot.Web.{Handler, revalidate, no_cache_static, is_page, file_name, title_handler}
use pispot.Web.Titles.{IsTitled, title_handler-IsTitled}

abbrev config_text : Bytes → Result Bytes
config_text path = ok (lit "[groups]\nadmin = wheel\n")

abbrev calls : Bytes → Calls
calls path = record {
  removes = true;
  listen_error = none;
  created_mode = 493;
  chmod_error = none;
  cleans = true;
}

abbrev accepts : List (Accept Connection)
accepts =
    accepted (env, some (request op_wan_up))
    ∷ failed (lit "accept: too many open files")
    ∷ accepted (env, none)
    ∷ closed
    ∷ []

abbrev stale : Server Work
stale = record { file = some 493; started = [] }

main-Serves_example :
    (((main config_text calls none none accepts stale).1.started ≡ [])
      × Refuses
          (load_config (config_text (lit "/etc/pispot/authd.conf")))
          (calls (lit "/run/pispot/pispot-authd.sock"))
          (main config_text calls none none accepts stale).0)
    ⊎ Serves
        (load_config (config_text (lit "/etc/pispot/authd.conf")))
        (calls (lit "/run/pispot/pispot-authd.sock"))
        accepts
        (main config_text calls none none accepts stale).1
        (main config_text calls none none accepts stale).0
main-Serves_example = main-Serves config_text calls none none accepts stale refl

abbrev files : Bytes → Option Bytes
files name =
    if equal name (lit "index.html") then some (lit "<h1>{{DASHBOARD_TITLE}}</h1>") else none

abbrev file_server : Handler
file_server r headers = record { status = 404; headers = headers; body = text (lit "not found") }

abbrev root : HttpRequest
root = record post { method = lit "GET"; path = lit "/" }

abbrev index_answer : HttpResponse
index_answer = title_handler files (no_cache_static file_server) (lit "PiSpot") root []

title_handler-IsTitled_example :
    ((contents : Bytes) × (is_page (lit "/") ≡ true)
      × (files (file_name (lit "/")) ≡ some contents)
      × IsTitled (lit "PiSpot") contents index_answer)
    ⊎ (((is_page (lit "/") ≡ false) ⊎ (files (file_name (lit "/")) ≡ none))
        × (index_answer ≡ file_server root ((lit "Cache-Control", revalidate) ∷ [])))
title_handler-IsTitled_example = title_handler-IsTitled files file_server (lit "PiSpot") root
