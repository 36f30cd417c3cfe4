-- ===== src/Dashboard/Race/Safety.antt =====
-- What a change of the daemon's state takes, over every interleaving of requests.
use pispot.Base.{
  ℕ, ◌+◌, ◌≤◌, ◌≡◌, refl, sym, ap, subst, ◌∙◌, ◌⊎◌, inl, inr, false, none, some, List, Bool-cases,
  arith,
}
use pispot.Api.Guards.{mux-not_admin, mux_guards, IsPermitted}
use pispot.Authd.{Daemon}
use pispot.Authz.Cache.{cache_ttl}
use pispot.Authz.Cache.Keys.{IsDigest}
use pispot.Authz.Middleware.{Settings, pass, deny}
use pispot.Authz.Middleware.Race
use pispot.Authz.Middleware.Race.{Pc, arrived, calling, storing, decided}
use pispot.Authz.Middleware.Race.Invariant.{Admitted, Entitled}
use pispot.Authz.Middleware.Race.Safety.{run-Admitted}
use pispot.Dashboard.{Incoming, contact, respond}
use pispot.Dashboard.Privilege.{Admits, Vouches-Admits, visit_of-http, visit_of-read_at}
use pispot.Dashboard.Race.{Stage, Shared, System, pass_guard, run_handler, advance, start, run}
use pispot.Dashboard.Race.Guarded.{front, visits, front-interleave}
use pispot.Go.Bytes.{Bytes, lit, equal, equal_iff, is_empty}
use pispot.Http.{HttpRequest, HttpResponse}
use pispot.Schedule.{pick}

-- What an operation of the daemon takes: a permitted request, by an admin.
respond-IsPermitted :
    (st : Settings) (page : HttpRequest → Bytes → HttpResponse) (v : Incoming) (d : Daemon)
    (role : Bytes)
    → ((respond st page v d (pass role)).1 ≡ d)
      ⊎ ((role ≡ lit "admin") × IsPermitted st.socket_path v.http (lit "admin"))
unfolding respond
respond-IsPermitted st page v d role = elim (Bool-cases (equal role (lit "admin"))) [
  | inr other ↦
      inl (mux-not_admin st.socket_path (contact v.env v.op_link) page v.http role d other)
  | inl is_admin ↦
      let same = (equal_iff role (lit "admin")).0 is_admin in
      elim (mux_guards st.socket_path (contact v.env v.op_link) page v.http role d) [
        | inl kept ↦ inl kept
        | inr permitted ↦ inr (same, rw same at permitted)
      ]
]

pass_guard-daemon :
    (st : Settings) (page : HttpRequest → Bytes → HttpResponse) (v : Incoming) (s : Shared) (p : Pc)
    → (pass_guard st page v s p).0.1 ≡ s.1
unfolding pass_guard
pass_guard-daemon st page v s p = refl

-- A step that changes the daemon is that of a handler behind the middleware.
advance-daemon :
    (st : Settings) (page : HttpRequest → Bytes → HttpResponse) (v : Incoming) (s : Shared)
    (stage : Stage)
    → ((advance st page v s stage).0.1 ≡ s.1)
      ⊎ ((stage.0 ≡ decided (pass (lit "admin"))) × IsPermitted st.socket_path v.http (lit "admin"))
unfolding advance
advance-daemon st page v s (arrived, o) = inl (pass_guard-daemon st page v s arrived)
advance-daemon st page v s (calling username password, o) =
    inl (pass_guard-daemon st page v s (calling username password))
advance-daemon st page v s (storing username password role, o) =
    inl (pass_guard-daemon st page v s (storing username password role))
advance-daemon st page v s (decided (pass role), none) =
    unfold run_handler in
    elim (respond-IsPermitted st page v s.1 role) [
      | inl kept ↦ inl kept
      | inr (same, permitted) ↦ inr (ap (λ r. decided (pass r)) same, permitted)
    ]
advance-daemon st page v s (decided (deny answer), none) = unfold run_handler respond in inl refl
advance-daemon st page v s (decided decision, some answer) = inl refl

module _ (st : Settings) (incoming : ℕ → Incoming) where
  -- A permitted request, by a user whom the daemon accepted as an admin: for this request, or for
  -- another one of the same name and digest of the password, that was let through as an admin's, and
  -- whose answer was stored no more than five minutes before this one read the cache.
  pub record Authorized (s : System) (i : ℕ) : Type 0 where
    pub permitted : IsPermitted st.socket_path (incoming i).http (lit "admin")
    pub username : Bytes
    pub password : Bytes
    pub credentials : (incoming i).http.basic_auth ≡ some (username, password)
    pub admitted :
        Admits st (incoming i) username password
        ⊎ ((j : ℕ) × Admits st (incoming j) username password
            × ((s.pc j).0 ≡ decided (pass (lit "admin")))
            × ((incoming i).read_at ≤ (incoming j).written_at + cache_ttl))

  Entitled-Authorized :
      (d : Daemon) (s : System) (i : ℕ)
      → IsPermitted st.socket_path (incoming i).http (lit "admin")
      → Entitled st (visits incoming d) (front s) i (lit "admin")
      → Authorized s i
  Entitled-Authorized d s i permitted h = record {
    permitted = permitted;
    username = h.username;
    password = h.password;
    credentials =
        sym (ap (λ (x : HttpRequest). x.basic_auth) (visit_of-http (incoming i) d)) ∙ h.credentials;
    admitted = elim h.accepted [
      | inl own ↦ inl (Vouches-Admits st (incoming i) d h.username h.password _ own).0
      | inr (j, (vouches, at), good) ↦
          let (admits, same) = Vouches-Admits st (incoming j) d h.username h.password _ vouches in
          let read = visit_of-read_at (incoming i) d in
          inr (j, admits, at, omega (arith, same, read, good))
    ];
  }

  -- With an auth socket and a digest of 32 bytes, and after any number of steps of any number of
  -- requests, in any order: the next step of any request leaves the files and the commands of the
  -- daemon, pamtester aside, alone, or the method and path of that request are those of an operation,
  -- and the daemon accepted its credentials as an admin's, for this request or for another one with the
  -- same name and a password of the same digest, that was let through as an admin's and whose answer was
  -- stored at most five minutes before this one read the cache.
  pub run-Authorized :
      (page : HttpRequest → Bytes → HttpResponse) (d : Daemon) (schedule : List ℕ) (i : ℕ)
      → IsDigest st.digest
      → is_empty st.socket_path ≡ false
      → let s = run st page incoming schedule (start d) in
        ((pick (λ j. advance st page (incoming j)) i s).shared.1 ≡ s.shared.1) ⊎ Authorized s i
  unfolding pick
  run-Authorized page d schedule i h on =
      let s = run st page incoming schedule (start d) in
      let seen = front-interleave st page incoming d schedule (start d) in
      elim (advance-daemon st page (incoming i) s.shared (s.pc i)) [
        | inl kept ↦ inl kept
        | inr (at, permitted) ↦
            let admitted =
              run-Admitted st (visits incoming d) schedule i (lit "admin") h on
                (ap (λ (r : Race.System). r.pc i) (sym seen) ∙ at) in
            elim (subst (λ r. Admitted st (visits incoming d) r i (lit "admin")) (sym seen)
              admitted) [
                | inl (_, no_role) ↦ absurd cc
                | inr entitled ↦ inr (Entitled-Authorized d s i permitted entitled)
              ]
      ]
