-- ===== src/Dashboard/Main.antt =====
-- dashboard/cmd/pispot-ui/main.go: the pages that do not call the daemon, the log of requests, and the
-- life of the process.
use pispot.Base.{ℕ, ◌≡◌, refl, Option, List, [], ◌∷◌, ◌++◌, if◌then◌else◌}
use pispot.Authd.{Daemon}
use pispot.Authz.Cache.{AuthCache}
use pispot.Authz.Middleware.{Settings}
use pispot.Dashboard.{Incoming, serve}
use pispot.Dashboard.Config.{Config}
use pispot.Dashboard.Config.Start.{Start, refuses, serves_tls, serves_plain, start_server}
use pispot.Go.Bytes.{Bytes, lit, equal}
use pispot.Http.{HttpRequest, HttpResponse}
use pispot.Result.{Result, ok, err}
use pispot.Stats.Request.{healthz}
use pispot.Web.{Handler, no_cache_static, title_handler}

-- What the pages are made of: the handler of /api/stats, the embedded files, and http.FileServer.
pub record Pages : Type 0 where
  pub stats : HttpRequest → Bytes → HttpResponse
  pub files : Bytes → Option Bytes
  pub file_server : Handler

-- The routes that `mux` does not name, with the role of the request's context.
pub page : Pages → Bytes → HttpRequest → Bytes → HttpResponse
page pages title r role =
    if equal r.path (lit "/api/stats")
    then pages.stats r role
    else if equal r.path (lit "/healthz")
    then healthz
    else title_handler pages.files (no_cache_static pages.file_server) title r []

pub page-healthz :
    (pages : Pages) (title : Bytes) (r : HttpRequest) (role : Bytes)
    → r.path ≡ lit "/healthz"
    → page pages title r role ≡ healthz
unfolding page equal
page-healthz pages title r role h = rw h refl

-- A line of logRequests, but for the duration.
pub record LogLine : Type 0 where
  pub method : Bytes
  pub path : Bytes
  pub status : ℕ

-- The log, and what the requests change.
pub record Site : Type 0 where
  pub log : List LogLine
  pub cache : AuthCache
  pub daemon : Daemon

log_line : HttpRequest → HttpResponse → LogLine
log_line r answer = record { method = r.method; path = r.path; status = answer.status }

-- `httpServer.Handler`: the log around the middleware around the routes.
pub answer_request : Settings → Pages → Bytes → Incoming → Site → HttpResponse × Site
answer_request st pages title v s =
    let (answer, (cache, daemon)) = serve st (page pages title) v s.cache s.daemon in
    (answer, record { log = s.log ++ log_line v.http answer ∷ []; cache = cache; daemon = daemon })

-- How the process ends: by log.Fatalf, by os.Exit(1) behind a failed shutdown, or by the end of `main`.
pub data Ending : Type 0 where
  fatal : Bytes → Ending
  shutdown_failed : Ending
  stopped : Ending

-- What befalls the server: ListenAndServe returns an error other than http.ErrServerClosed, or a signal
-- comes, and Shutdown succeeds or fails.
pub data Fate : Type 0 where
  listen_fails : Bytes → Fate
  interrupted : Result (Unit {0}) → Fate

end_of : Fate → Ending
end_of (listen_fails e) = fatal (lit "listen: " ++ e)
end_of (interrupted (ok _)) = stopped
end_of (interrupted (err e)) = shutdown_failed

from_start : Fate → Start → Ending
from_start fate (refuses message) = fatal message
from_start fate (serves_tls addr cert key) = end_of fate
from_start fate (serves_plain addr) = end_of fate

pub main : Config → Fate → Ending
main cfg fate = from_start fate (start_server cfg)
