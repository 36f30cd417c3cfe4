-- ===== src/Dashboard.antt =====
-- pispot-ui in front of pispot-authd: the middleware and the routes over the daemon's own handlers.
pub mod Config
pub mod Privilege
pub mod Main
pub mod Machine
pub mod Race
use pispot.Base.{ℕ, Option, none, some, List, [], ◌∷◌}
use pispot.Api.{mux}
use pispot.Authd.{Env, Daemon, handle}
use pispot.Authz.Cache.{AuthCache}
use pispot.Authz.Client.{
  Carried, dial_failed, encode_failed, decode_failed, received, Helper, call_helper, auth_outcome,
  auth_request,
}
use pispot.Authz.Middleware.{Settings, Visit, Decision, pass, deny, decide, after}
use pispot.Go.Bytes.{Bytes, lit}
use pispot.Http.{HttpRequest, HttpResponse}
use pispot.Result.{Result}
use pispot.Socket.{Request, Response}

-- What befalls a connection to the daemon. Only a response that cannot be read comes after the
-- daemon has done its work.
pub data Link : Type 0 where
  works : Link
  no_dial : Bytes → Link
  no_encode : Bytes → Link
  no_decode : Bytes → Link

-- The daemon as the other end of the socket: it reads a request that was written, and answers it.
pub contact : Env → Link → Helper Daemon
contact env works req d = let (resp, d') = handle env (some req) d in (received resp, d')
contact env (no_dial e) req d = (dial_failed e, d)
contact env (no_encode e) req d = (encode_failed e, d)
contact env (no_decode e) req d = (decode_failed e, (handle env (some req) d).1)

-- A request to pispot-ui, with the daemon's surroundings and the fate of the connections meanwhile.
pub record Incoming : Type 0 where
  pub http : HttpRequest
  pub read_at : ℕ
  pub written_at : ℕ
  pub env : Env
  pub auth_link : Link
  pub op_link : Link

credentials_or_none : Option (Bytes × Bytes) → Bytes × Bytes
credentials_or_none none = ([], [])
credentials_or_none (some p) = p

-- The visit that the middleware sees: `callHelper` is called, if at all, with the credentials of the
-- request. An authentication leaves the daemon as it is.
pub visit_of : Incoming → Daemon → Visit
visit_of v d =
    let (username, password) = credentials_or_none v.http.basic_auth in
    record {
      http = v.http;
      read_at = v.read_at;
      written_at = v.written_at;
      helper = (call_helper (contact v.env v.auth_link) username password d).0;
    }

pub respond :
    Settings
    → (HttpRequest → Bytes → HttpResponse)
    → Incoming
    → Daemon
    → Decision
    → HttpResponse × Daemon
respond st page v d (deny answer) = (answer, d)
respond st page v d (pass role) = mux st.socket_path (contact v.env v.op_link) page v.http role d

-- One request, over the cache and the daemon.
pub serve :
    Settings
    → (HttpRequest → Bytes → HttpResponse)
    → Incoming
    → AuthCache
    → Daemon
    → HttpResponse × (AuthCache × Daemon)
serve st page v cache d =
    let (decision, cache') = decide st (visit_of v d) cache in
    let (answer, d') = respond st page v d decision in (answer, (cache', d'))

-- The daemon behind a row of requests, the last of them first, and the visits of the middleware.
pub daemon_after :
    Settings → (HttpRequest → Bytes → HttpResponse) → Daemon → List Incoming → AuthCache × Daemon
daemon_after st page d [] = ([], d)
daemon_after st page d (v ∷ past) =
    let (cache, d') = daemon_after st page d past in (serve st page v cache d').1

-- All that `visit_of` and `respond` compute with, but for the client and the routes.
unfoldable pub responding : Unit {0}
unfolding visit_of credentials_or_none respond
responding = tt
