-- ===== src/Authz/Middleware/Race.antt =====
-- dashboard/internal/authz/middleware.go and cache.go: requests that meet the middleware at the same
-- time, as net/http serves them. A step of a request is what it does under the lock of the cache, or the
-- call of the helper.
pub mod Invariant
pub mod Safety
pub mod Refusals
use pispot.Base.{ℕ, ◌≡◌, refl, Bool-cases, inl, inr, Option, none, some, List, [], if◌then◌else◌}
use pispot.Authz.Cache.{AuthCache, get, set}
use pispot.Authz.Middleware.{Settings, Visit, Decision, pass, deny, unauthorized}
use pispot.Go.Bytes.{Bytes, lit, equal, equal_iff, is_empty}
use pispot.Http.{http_error}
use pispot.Result.{Result, ok, err}
use pispot.Schedule
use pispot.Schedule.{interleave}
use pispot.Socket.{Response}

-- Where a request stands: in front of `cache.get`, of `callHelper`, of `cache.set`, or behind them.
pub data Pc : Type 0 where
  arrived : Pc
  calling : Bytes → Bytes → Pc
  storing : Bytes → Bytes → Bytes → Pc
  decided : Decision → Pc

on_lookup : Bytes → Bytes → Option Bytes → Pc
on_lookup username password (some role) = decided (pass role)
on_lookup username password none = calling username password

-- Up to the answer of `cache.get`.
ask_cache : Settings → Visit → Option (Bytes × Bytes) → AuthCache → Pc
ask_cache st v none cache = decided (deny (unauthorized st))
ask_cache st v (some (username, password)) cache =
    if is_empty username
    then decided (deny (unauthorized st))
    else on_lookup username password (get st.digest v.read_at username password cache)

-- Behind `callHelper`.
on_answer : Settings → Bytes → Bytes → Result Response → Pc
on_answer st username password (err e) =
    decided (deny (http_error [] 503 (lit "Authentication service unavailable")))
on_answer st username password (ok resp) =
    if resp.success then storing username password resp.role else decided (deny (unauthorized st))

pub advance : Settings → Visit → AuthCache → Pc → AuthCache × Pc
advance st v cache arrived = (
  cache,
  if is_empty st.socket_path
      then decided (pass [])
      else if equal v.http.path (lit "/healthz")
      then decided (pass [])
      else ask_cache st v v.http.basic_auth cache,
)
advance st v cache (calling username password) = (cache, on_answer st username password v.helper)
advance st v cache (storing username password role) =
    (set st.digest v.written_at username password role cache, decided (pass role))
advance st v cache (decided decision) = (cache, decided decision)

pub advance-decided :
    (st : Settings) (v : Visit) (cache : AuthCache) (decision : Decision)
    → advance st v cache (decided decision) ≡ (cache, decided decision)
unfolding advance
advance-decided st v cache decision = refl

pub advance-healthz :
    (st : Settings) (v : Visit) (cache : AuthCache)
    → v.http.path ≡ lit "/healthz"
    → advance st v cache arrived ≡ (cache, decided (pass []))
unfolding advance
advance-healthz st v cache h =
    let probe = (equal_iff v.http.path (lit "/healthz")).1 h in
    elim (Bool-cases (is_empty st.socket_path)) [
      | inl off ↦ rw off refl
      | inr on ↦ rw (on, probe) refl
    ]

-- The cache, and where each of the requests stands.
abbrev pub System : Type 0
System = Schedule.System AuthCache Pc

-- `newAuthCache`, in front of every request.
abbrev pub start : System
start = record { shared = []; pc = λ _. arrived }

abbrev pub run : Settings → (ℕ → Visit) → List ℕ → System → System
run st visits = interleave (λ i. advance st (visits i))

-- All that `run` computes with, but for the cache and the texts of the answers.
unfoldable pub racing : Unit {0}
unfolding advance ask_cache on_lookup on_answer interleave
racing = tt
