-- ===== src/Dashboard/Race.antt =====
-- pispot-ui in front of pispot-authd with many requests at the same time: net/http starts a goroutine for
-- each, which passes the middleware and then a handler. A step is one of the middleware's, or the
-- handler's with its call of the daemon.
pub mod Guarded
pub mod Safety
pub mod Answers
pub mod Healthz
use pispot.Base.{ℕ, Option, none, some, List, []}
use pispot.Authd.{Daemon}
use pispot.Authz.Cache.{AuthCache}
use pispot.Authz.Middleware.{Settings, Decision}
use pispot.Authz.Middleware.Race
use pispot.Authz.Middleware.Race.{Pc, arrived, calling, storing, decided}
use pispot.Dashboard.{Incoming, visit_of, respond}
use pispot.Go.Bytes.{Bytes}
use pispot.Http.{HttpRequest, HttpResponse}
use pispot.Schedule
use pispot.Schedule.{interleave}

-- Where a request stands in the middleware, and the answer of what comes behind it.
abbrev pub Stage : Type 0
Stage = Pc × Option HttpResponse

-- The cache of the middleware, and the daemon.
abbrev pub Shared : Type 0
Shared = AuthCache × Daemon

module _ (st : Settings) (page : HttpRequest → Bytes → HttpResponse) (v : Incoming) where
  -- A step in the middleware.
  pass_guard : Shared → Pc → Shared × Stage
  pass_guard (cache, d) p =
      let (cache', p') = Race.advance st (visit_of v d) cache p in ((cache', d), (p', none))

  -- The handler, for a request that is let through.
  run_handler : Shared → Decision → Shared × Stage
  run_handler (cache, d) decision =
      let (answer, d') = respond st page v d decision in
      ((cache, d'), (decided decision, some answer))

  pub advance : Shared → Stage → Shared × Stage
  advance s (arrived, o) = pass_guard s arrived
  advance s (calling username password, o) = pass_guard s (calling username password)
  advance s (storing username password role, o) = pass_guard s (storing username password role)
  advance s (decided decision, none) = run_handler s decision
  advance s (decided decision, some answer) = (s, (decided decision, some answer))

abbrev pub System : Type 0
System = Schedule.System Shared Stage

-- The cache is empty when the dashboard starts.
abbrev pub start : Daemon → System
start d = record { shared = ([], d); pc = λ _. (arrived, none) }

abbrev pub run :
    Settings → (HttpRequest → Bytes → HttpResponse) → (ℕ → Incoming) → List ℕ → System → System
run st page incoming = interleave (λ i. advance st page (incoming i))

-- All that `run` computes with, but for the middleware and the handlers.
unfoldable pub serving : Unit {0}
unfolding advance pass_guard run_handler interleave
serving = tt
