-- ===== src/Authz/Middleware.antt =====
-- dashboard/internal/authz/middleware.go
pub mod Runs
pub mod Race
use pispot.Base.{ℕ, Bool, true, false, Option, none, some, List, [], ◌∷◌, ◌++◌, if◌then◌else◌}
use pispot.Authz.Cache.{AuthCache, get, set, caching}
use pispot.Go.Bytes.{Bytes, lit, equal, is_empty}
use pispot.Go.Quote.{quote}
use pispot.Go.Unicode.{Unicode}
use pispot.Http.{HttpRequest, HttpResponse, http_error}
use pispot.Result.{Result, ok, err}
use pispot.Socket.{Response}

-- The parameters of `Middleware`, and sha256.Sum256.
pub record Settings : Type 0 where
  pub unicode : Unicode
  pub digest : Bytes → Bytes
  pub socket_path : Bytes
  pub realm : Bytes

-- One request as it meets the middleware: the instants at which the cache is read and written, and
-- what `callHelper` returns if it is called.
pub record Visit : Type 0 where
  pub http : HttpRequest
  pub read_at : ℕ
  pub written_at : ℕ
  pub helper : Result Response

-- The handler is called with the role of the context ("" if there is none), or an answer is given.
pub data Decision : Type 0 where
  pass : Bytes → Decision
  deny : HttpResponse → Decision

pub unauthorized : Settings → HttpResponse
unauthorized st =
    http_error ((lit "WWW-Authenticate", lit "Basic realm=" ++ quote st.unicode st.realm) ∷ []) 401
      (lit "Unauthorized")

-- A miss of the cache, behind `callHelper`.
on_miss : Settings → Visit → Bytes → Bytes → Result Response → AuthCache → Decision × AuthCache
on_miss st v username password (err e) cache =
    (deny (http_error [] 503 (lit "Authentication service unavailable")), cache)
on_miss st v username password (ok resp) cache =
    if resp.success
    then (pass resp.role, set st.digest v.written_at username password resp.role cache)
    else (deny (unauthorized st), cache)

on_cache : Settings → Visit → Bytes → Bytes → Option Bytes → AuthCache → Decision × AuthCache
on_cache st v username password (some role) cache = (pass role, cache)
on_cache st v username password none cache = on_miss st v username password v.helper cache

on_credentials : Settings → Visit → Option (Bytes × Bytes) → AuthCache → Decision × AuthCache
on_credentials st v none cache = (deny (unauthorized st), cache)
on_credentials st v (some (username, password)) cache =
    if is_empty username
    then (deny (unauthorized st), cache)
    else on_cache st v username password (get st.digest v.read_at username password cache) cache

pub decide : Settings → Visit → AuthCache → Decision × AuthCache
decide st v cache =
    if is_empty st.socket_path
    then (pass [], cache)
    else if equal v.http.path (lit "/healthz")
    then (pass [], cache)
    else on_credentials st v v.http.basic_auth cache

-- The cache behind a row of requests, the last of them first; it is empty at first.
pub after : Settings → List Visit → AuthCache
after st [] = []
after st (v ∷ past) = (decide st v (after st past)).1

-- All that `decide` and `after` compute with, but for the texts of their answers.
unfoldable pub deciding : Unit {0}
unfolding after decide on_credentials on_cache on_miss caching
deciding = tt
