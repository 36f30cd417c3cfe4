-- ===== src/Dashboard/Race/Guarded.antt =====
-- What the middleware sees of requests at the same time: a run of its own.
use pispot.Base.{ℕ, ◌==◌, ◌≡◌, refl, sym, ap, ◌∙◌, none, some, List, [], ◌∷◌, Bool-cases, inl, inr}
use pispot.Authd.{Env, Daemon, handle, handle_auth, handling}
use pispot.Authz.Cache.{AuthCache}
use pispot.Authz.Client.{call_helper, auth_request, auth_outcome}
use pispot.Authz.Middleware.{Settings, Visit}
use pispot.Authz.Middleware.Race
use pispot.Authz.Middleware.Race.{Pc, arrived, calling, storing, decided}
use pispot.Dashboard.{
  Link, works, no_dial, no_encode, no_decode, contact, Incoming, credentials_or_none, visit_of,
}
use pispot.Dashboard.Race.{Stage, Shared, System, pass_guard, run_handler, advance, run}
use pispot.Go.Bytes.{Bytes, equal}
use pispot.Http.{HttpRequest, HttpResponse}
use pispot.Schedule.{update, pick, interleave}

-- An authentication leaves the daemon as it is, and does not depend on it.
handle-auth_request :
    (env : Env) (username password : Bytes) (d : Daemon)
    → handle env (some (auth_request username password)) d
      ≡ (handle_auth env (auth_request username password), d)
unfolding handling auth_request equal
handle-auth_request env username password d = refl

contact-auth_request :
    (env : Env) (link : Link) (username password : Bytes) (d d' : Daemon)
    → (contact env link (auth_request username password) d).0
      ≡ (contact env link (auth_request username password) d').0
unfolding contact
contact-auth_request env works username password d d' =
    rw (handle-auth_request env username password d, handle-auth_request env username password d')
      refl
contact-auth_request env (no_dial e) username password d d' = refl
contact-auth_request env (no_encode e) username password d d' = refl
contact-auth_request env (no_decode e) username password d d' = refl

visit_of-same : (v : Incoming) (d d' : Daemon) → visit_of v d ≡ visit_of v d'
unfolding visit_of call_helper
visit_of-same v d d' =
    let (username, password) = credentials_or_none v.http.basic_auth in
    ap
      (λ c. record {
        http = v.http;
        read_at = v.read_at;
        written_at = v.written_at;
        helper = auth_outcome c;
      })
      (contact-auth_request v.env v.auth_link username password d d')

module _ (st : Settings) (page : HttpRequest → Bytes → HttpResponse) (v : Incoming) where
  -- The cache and the middleware's part of a stage.
  abbrev guarded : Shared × Stage → AuthCache × Pc
  guarded (s, stage) = (s.0, stage.0)

  guarded-pass_guard :
      (s : Shared) (p : Pc) (d : Daemon)
      → guarded (pass_guard st page v s p) ≡ Race.advance st (visit_of v d) s.0 p
  unfolding pass_guard
  guarded-pass_guard s p d = ap (λ w. Race.advance st w s.0 p) (visit_of-same v s.1 d)

  guarded-advance :
      (s : Shared) (stage : Stage) (d : Daemon)
      → guarded (advance st page v s stage) ≡ Race.advance st (visit_of v d) s.0 stage.0
  unfolding advance run_handler
  guarded-advance s (arrived, o) d = guarded-pass_guard s arrived d
  guarded-advance s (calling username password, o) d =
      guarded-pass_guard s (calling username password) d
  guarded-advance s (storing username password role, o) d =
      guarded-pass_guard s (storing username password role) d
  guarded-advance s (decided decision, none) d =
      sym (Race.advance-decided st (visit_of v d) s.0 decision)
  guarded-advance s (decided decision, some answer) d =
      sym (Race.advance-decided st (visit_of v d) s.0 decision)

update-map :
    {A B : Type 0} (f : A → B) (pc : ℕ → A) (i : ℕ) (a : A) (j : ℕ)
    → f (update pc i a j) ≡ update (λ k. f (pc k)) i (f a) j
unfolding update
update-map f pc i a j = elim (Bool-cases (j == i)) [
  | inl same ↦ rw same refl
  | inr other ↦ rw other refl
]

-- What the middleware sees of a system.
abbrev pub front : System → Race.System
front s = record { shared = s.shared.0; pc = λ i. (s.pc i).0 }

-- The visits of the requests, whatever the daemon has come to.
abbrev pub visits : (ℕ → Incoming) → Daemon → ℕ → Visit
visits incoming d i = visit_of (incoming i) d

module _ (st : Settings) (page : HttpRequest → Bytes → HttpResponse) (incoming : ℕ → Incoming)
    (d : Daemon) where
  front-pick :
      (i : ℕ) (s : System)
      → front (pick (λ j. advance st page (incoming j)) i s)
        ≡ pick (λ j. Race.advance st (visits incoming d j)) i (front s)
  unfolding pick
  front-pick i s =
      let (s', stage) = advance st page (incoming i) s.shared (s.pc i) in
      (λ k. record { shared = s'.0; pc = λ j. update-map (λ (t : Stage). t.0) s.pc i stage j k })
      ∙ ap (λ (r : AuthCache × Pc). record { shared = r.0; pc = update (λ j. (s.pc j).0) i r.1 })
          (guarded-advance st page (incoming i) s.shared (s.pc i) d)

  pub front-interleave :
      (schedule : List ℕ) (s : System)
      → front (run st page incoming schedule s) ≡ Race.run st (visits incoming d) schedule (front s)
  unfolding interleave
  front-interleave [] s = refl
  front-interleave (i ∷ is) s =
      front-interleave is (pick (λ j. advance st page (incoming j)) i s)
      ∙ ap (Race.run st (visits incoming d) is) (front-pick i s)
