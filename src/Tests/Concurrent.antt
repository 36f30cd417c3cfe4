-- ===== src/Tests/Concurrent.antt =====
-- Requests at the same time: eve asks for the page, and a minute later for another one, which the cache
-- answers; mallory has no password.
use pispot.Base.{ℕ, ◌≡◌, refl, ◌⊎◌, none, some, [], ◌∷◌, ◌==◌, if◌then◌else◌, List, arith}
use pispot.Authz.Middleware.{pass, unauthorized}
use pispot.Authz.Middleware.Race.{decided, racing}
use pispot.Authz.Middleware.Race.Invariant.{Admitted}
use pispot.Authz.Middleware.Race.Refusals.{IsRefusal}
use pispot.Dashboard.{Incoming, works, responding}
use pispot.Dashboard.Race.{start, run, advance, serving}
use pispot.Dashboard.Race.Answers.{run-IsRefusal}
use pispot.Dashboard.Race.Guarded.{front, visits}
use pispot.Dashboard.Main.{Pages, page}
use pispot.Dashboard.Race.Healthz.{run-healthz}
use pispot.Stats.Request.{healthz}
use pispot.Dashboard.Race.Safety.{Authorized, run-Authorized}
use pispot.Go.Bytes.{Bytes, lit, equal}
use pispot.Http.{HttpRequest, HttpResponse, text}
use pispot.Schedule.{update, pick}
use pispot.Tests.Daemon.{env, daemon}
use pispot.Tests.Dashboard.{settings, post, fit-IsDigest}

abbrev hello : HttpRequest → Bytes → HttpResponse
hello r role = record { status = 200; headers = []; body = text (lit "hello") }

abbrev at : ℕ → HttpRequest → Incoming
at now http = record {
  http = http;
  read_at = now;
  written_at = now;
  env = env;
  auth_link = works;
  op_link = works;
}

abbrev incoming : ℕ → Incoming
incoming i =
    if i == 0
    then at 1_000 post
    else if i == 1
    then at 60_000_000_000 post
    else at 2_000 (record post { path = lit "/"; basic_auth = none })

-- Request 1 begins when request 0 has been accepted by the daemon, but has not stored the answer.
abbrev mixed : List ℕ
mixed = 0 ∷ 0 ∷ 1 ∷ 0 ∷ 2 ∷ 1 ∷ 2 ∷ 0 ∷ 1 ∷ []

run-Authorized_example :
    ((pick
        (λ j. advance settings hello (incoming j))
        1
        (run settings hello incoming mixed (start daemon))).shared.1
      ≡ (run settings hello incoming mixed (start daemon)).shared.1)
    ⊎ Authorized settings incoming (run settings hello incoming mixed (start daemon)) 1
run-Authorized_example = run-Authorized settings incoming hello daemon mixed 1 fit-IsDigest refl

mallory_refused :
    ((run settings hello incoming mixed (start daemon)).pc 2).1 ≡ some (unauthorized settings)
unfolding racing serving responding pick update equal
mallory_refused = refl

run-IsRefusal_example :
    IsRefusal settings (unauthorized settings)
    ⊎ ((role : Bytes) × (((run settings hello incoming mixed (start daemon)).pc 2).0
          ≡ decided (pass role))
        × Admitted settings
            (visits incoming daemon)
            (front (run settings hello incoming mixed (start daemon)))
            2
            role)
run-IsRefusal_example =
    run-IsRefusal settings hello incoming daemon mixed 2 (unauthorized settings) fit-IsDigest refl
      mallory_refused

-- The same at the time of a probe, by nobody.
abbrev pages : Pages
pages = record { stats = hello; files = λ name. none; file_server = λ r headers. hello r [] }

abbrev probing : ℕ → Incoming
probing i =
    if i == 3
    then at 3_000 (record post { method = lit "GET"; path = lit "/healthz"; basic_auth = none })
    else incoming i

run-healthz_example :
    (run settings (page pages (lit "PiSpot")) probing (3 ∷ 0 ∷ 1 ∷ 3 ∷ mixed) (start daemon)).pc 3
    ≡ (decided (pass []), some healthz)
run-healthz_example =
    run-healthz settings pages (lit "PiSpot") probing 3 (3 ∷ 0 ∷ 1 ∷ 3 ∷ mixed) (start daemon) refl
      refl (omega arith)
