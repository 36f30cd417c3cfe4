-- ===== src/Dashboard/Privilege.antt =====
-- What a change of the daemon's state takes, over every row of requests.
use pispot.Base.{
  ℕ, ◌+◌, ◌≤◌, ◌≡◌, refl, sym, ap, ◌∙◌, ◌⊎◌, inl, inr, false, some, List, [], ◌∷◌, Any, Bool-cases,
  arith, subst,
}
use pispot.Api.Guards.{mux-not_admin, mux_guards, IsPermitted}
use pispot.Authd.{Env, Daemon, handle}
use pispot.Authd.Auth.{Accepts, handle-role}
use pispot.Authz.Cache.{cache_ttl}
use pispot.Authz.Cache.Keys.{IsDigest}
use pispot.Authz.Client.{call_helper, auth_outcome, auth_request}
use pispot.Authz.Middleware.{Settings, Visit, Decision, pass, deny, decide, after}
use pispot.Authz.Middleware.Runs.{Vouches, Entitled, decide-pass, after-cons, after-nil}
use pispot.Dashboard.{
  Link, works, no_dial, no_encode, no_decode, contact, Incoming, credentials_or_none, visit_of,
  respond, serve, daemon_after,
}
use pispot.Go.Bytes.{Bytes, lit, equal, equal_iff, is_empty}
use pispot.Http.{HttpRequest, HttpResponse}
use pispot.Result.{ok}
use pispot.Socket.{Request, Response}

abbrev Page : Type 0
Page = HttpRequest → Bytes → HttpResponse

visits : Settings → Page → Daemon → List Incoming → List Visit
visits st page d [] = []
visits st page d (v ∷ past) = visit_of v (daemon_after st page d past).1 ∷ visits st page d past

visits-cons :
    (st : Settings) (page : Page) (d : Daemon) (v : Incoming) (past : List Incoming)
    → visits st page d (v ∷ past)
      ≡ visit_of v (daemon_after st page d past).1 ∷ visits st page d past
unfolding visits
visits-cons st page d v past = refl

-- The cache behind the requests is that of their visits.
cache-visits :
    (st : Settings) (page : Page) (d : Daemon) (past : List Incoming)
    → (daemon_after st page d past).0 ≡ after st (visits st page d past)
unfolding daemon_after visits serve
cache-visits st page d [] = sym (after-nil st)
cache-visits st page d (v ∷ past) =
    ap (λ c. (decide st (visit_of v (daemon_after st page d past).1) c).1)
      (cache-visits st page d past)
    ∙ sym (after-cons st (visit_of v (daemon_after st page d past).1) (visits st page d past))

-- A response that is read is that of the daemon.
contact-ok :
    (env : Env) (link : Link) (req : Request) (d : Daemon) (resp : Response)
    → auth_outcome (contact env link req d).0 ≡ ok resp
    → (handle env (some req) d).0 ≡ resp
unfolding contact auth_outcome
contact-ok env works req d resp e = cc
contact-ok env (no_dial t) req d resp e = cc
contact-ok env (no_encode t) req d resp e = cc
contact-ok env (no_decode t) req d resp e = cc

-- The daemon accepted the credentials of a request, with a password of the same digest, as an admin.
pub record Admits (st : Settings) (w : Incoming) (username password : Bytes) : Type 0 where
  pub password' : Bytes
  pub credentials : w.http.basic_auth ≡ some (username, password')
  pub same_digest : st.digest password' ≡ st.digest password
  pub accepts : Accepts w.env username password' (lit "admin")

pub visit_of-http : (w : Incoming) (d : Daemon) → (visit_of w d).http ≡ w.http
unfolding visit_of
visit_of-http w d = refl

visit_of-written_at : (w : Incoming) (d : Daemon) → (visit_of w d).written_at ≡ w.written_at
unfolding visit_of
visit_of-written_at w d = refl

visit_of-helper :
    (w : Incoming) (d : Daemon) (username password : Bytes) (resp : Response)
    → w.http.basic_auth ≡ some (username, password)
    → (visit_of w d).helper ≡ ok resp
    → (handle w.env (some (auth_request username password)) d).0 ≡ resp
unfolding visit_of call_helper credentials_or_none
visit_of-helper w d username password resp creds answered =
    contact-ok w.env w.auth_link (auth_request username password) d resp (rw creds at answered)

admin-named : is_empty (lit "admin") ≡ false
admin-named = refl

accepted_admin :
    (env : Env) (d : Daemon) (username password : Bytes) (resp : Response)
    → (handle env (some (auth_request username password)) d).0 ≡ resp
    → resp.role ≡ lit "admin"
    → Accepts env username password (lit "admin")
unfolding auth_request
accepted_admin env d username password resp answered same =
    let by_role = ap (λ (x : Response). x.role) answered ∙ same in
    subst (λ r. Accepts env username password r) by_role
      (handle-role env (auth_request username password) d (ap is_empty by_role ∙ admin-named)).1

pub Vouches-Admits :
    (st : Settings) (w : Incoming) (d : Daemon) (username password : Bytes) (time : ℕ)
    → Vouches st (visit_of w d) username password (lit "admin") time
    → Admits st w username password × (w.written_at ≡ time)
Vouches-Admits st w d username password time h =
    let creds = sym (ap (λ (x : HttpRequest). x.basic_auth) (visit_of-http w d)) ∙ h.credentials in
    (
      record {
        password' = h.password';
        credentials = creds;
        same_digest = h.same_digest;
        accepts =
            accepted_admin w.env d username h.password' h.resp
              (visit_of-helper w d username h.password' h.resp creds h.answered) h.same_role;
      },
      sym (visit_of-written_at w d) ∙ h.same_time,
    )

-- An endpoint and method that reach the daemon, by a user whom the daemon accepted as an admin:
-- for this request, or for an earlier one of the same name and digest of the password, whose answer
-- was stored no more than five minutes before this one read the cache.
pub record Authorized (st : Settings) (past : List Incoming) (v : Incoming) : Type 0 where
  pub permitted : IsPermitted st.socket_path v.http (lit "admin")
  pub username : Bytes
  pub password : Bytes
  pub credentials : v.http.basic_auth ≡ some (username, password)
  pub admitted :
      Admits st v username password
      ⊎ Any (λ w. Admits st w username password × (v.read_at ≤ w.written_at + cache_ttl)) past

visits-Admits :
    (st : Settings) (page : Page) (d : Daemon) (past : List Incoming) (username password : Bytes)
    (now : ℕ)
    → Any
        (λ w.
          (time : ℕ) × Vouches st w username password (lit "admin") time × (now ≤ time + cache_ttl))
        (visits st page d past)
    → Any (λ w. Admits st w username password × (now ≤ w.written_at + cache_ttl)) past
unfolding visits
visits-Admits st page d [] username password now h = h
visits-Admits st page d (w ∷ past) username password now (inl (time, vouches, good)) =
    let (admits, same) =
      Vouches-Admits st w (daemon_after st page d past).1 username password time vouches in
    inl (admits, omega (arith, same, good))
visits-Admits st page d (w ∷ past) username password now (inr h) =
    inr (visits-Admits st page d past username password now h)

pub visit_of-read_at : (w : Incoming) (d : Daemon) → (visit_of w d).read_at ≡ w.read_at
unfolding visit_of
visit_of-read_at w d = refl

Entitled-Authorized :
    (st : Settings) (page : Page) (d : Daemon) (past : List Incoming) (v : Incoming) (d' : Daemon)
    → IsPermitted st.socket_path v.http (lit "admin")
    → Entitled st (visits st page d past) (visit_of v d') (lit "admin")
    → Authorized st past v
Entitled-Authorized st page d past v d' permitted h = record {
  permitted = permitted;
  username = h.username;
  password = h.password;
  credentials = sym (ap (λ (x : HttpRequest). x.basic_auth) (visit_of-http v d')) ∙ h.credentials;
  admitted = elim h.accepted [
    | inl now ↦ inl (Vouches-Admits st v d' h.username h.password _ now).0
    | inr before ↦ inr (
        visits-Admits st page d past h.username h.password v.read_at
          (rw (visit_of-read_at v d') at before))
  ];
}

respond_privilege :
    (st : Settings) (page : Page) (d : Daemon) (past : List Incoming) (v : Incoming) (d' : Daemon)
    (decision : Decision)
    → IsDigest st.digest
    → is_empty st.socket_path ≡ false
    → (decide st (visit_of v d') (after st (visits st page d past))).0 ≡ decision
    → ((respond st page v d' decision).1 ≡ d') ⊎ Authorized st past v
unfolding respond
respond_privilege st page d past v d' (deny answer) h on e = inl refl
respond_privilege st page d past v d' (pass role) h on e =
    elim (Bool-cases (equal role (lit "admin"))) [
      | inr other ↦
          inl (mux-not_admin st.socket_path (contact v.env v.op_link) page v.http role d' other)
      | inl is_admin ↦
          let same = (equal_iff role (lit "admin")).0 is_admin in
          elim (mux_guards st.socket_path (contact v.env v.op_link) page v.http role d') [
            | inl kept ↦ inl kept
            | inr permitted ↦
                elim (decide-pass st (visits st page d past) (visit_of v d') role h on e) [
                  | inl (_, no_role) ↦ absurd (let bad = sym same ∙ no_role in cc)
                  | inr entitled ↦ inr (
                      Entitled-Authorized st page d past v d' (rw same at permitted)
                        (rw same at entitled))
                ]
          ]
    ]

-- Over every row of requests, with an auth socket and a digest of 32 bytes: a request leaves the
-- files and the commands of the daemon alone, or its method and path are those of an operation, and
-- the daemon accepted its credentials as an admin's, for this request or at most five minutes
-- before it read the cache.
pub serve_privilege :
    (st : Settings) (page : Page) (d : Daemon) (past : List Incoming) (v : Incoming)
    → IsDigest st.digest
    → is_empty st.socket_path ≡ false
    → ((daemon_after st page d (v ∷ past)).1 ≡ (daemon_after st page d past).1)
      ⊎ Authorized st past v
unfolding daemon_after serve
serve_privilege st page d past v h on =
    let (cache, d') = daemon_after st page d past in
    respond_privilege st page d past v d' (decide st (visit_of v d') cache).0 h on
      (ap (λ c. (decide st (visit_of v d') c).0) (sym (cache-visits st page d past)))
