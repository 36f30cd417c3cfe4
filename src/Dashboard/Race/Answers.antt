-- ===== src/Dashboard/Race/Answers.antt =====
-- What a request to pispot-ui is answered, over every interleaving of requests.
use pispot.Base.{
  ℕ, ◌==◌, ◌≡◌, refl, sym, ap, subst, ◌∙◌, ◌⊎◌, inl, inr, false, none, some, List, Bool-cases,
  arith,
}
use pispot.Authd.{Daemon}
use pispot.Authz.Cache.Keys.{IsDigest}
use pispot.Authz.Middleware.{Settings, pass, deny}
use pispot.Authz.Middleware.Race
use pispot.Authz.Middleware.Race.Invariant.{Admitted}
use pispot.Authz.Middleware.Race.Safety.{run-Admitted}
use pispot.Authz.Middleware.Race.Refusals.{IsRefusal, Refuses, advance-Refuses}
use pispot.Authz.Middleware.Race.{Pc, arrived, calling, storing, decided}
use pispot.Dashboard.{Incoming, visit_of, respond}
use pispot.Dashboard.Race.{Stage, Shared, System, pass_guard, run_handler, advance, start, run}
use pispot.Dashboard.Race.Guarded.{front, visits, front-interleave}
use pispot.Go.Bytes.{Bytes, is_empty}
use pispot.Http.{HttpRequest, HttpResponse}
use pispot.Schedule.{update, pick, interleave-keeps}

module _ (st : Settings) where
  -- And behind it: a refused request is answered by the refusal.
  Told : Stage → Type 0
  Told (decided (deny a), some answer) = IsRefusal st answer
  Told (decided (deny a), none) = IsRefusal st a
  Told (decided (pass role), o) = Unit
  Told (arrived, o) = o ≡ none
  Told (calling username password, o) = o ≡ none
  Told (storing username password role, o) = o ≡ none

  Told-none : (p : Pc) → Refuses st p → Told (p, none)
  unfolding Refuses Told
  Told-none arrived h = refl
  Told-none (calling username password) h = refl
  Told-none (storing username password role) h = refl
  Told-none (decided (pass role)) h = tt
  Told-none (decided (deny a)) h = h

  advance-Told :
      (page : HttpRequest → Bytes → HttpResponse) (v : Incoming) (s : Shared) (stage : Stage)
      → Told stage
      → Told (advance st page v s stage).1
  unfolding Told advance pass_guard run_handler respond
  advance-Told page v s (arrived, o) h =
      Told-none _ (advance-Refuses st (visit_of v s.1) s.0 arrived (unfold Refuses in tt))
  advance-Told page v s (calling username password, o) h =
      Told-none _
        (advance-Refuses st (visit_of v s.1) s.0 (calling username password) (unfold Refuses in tt))
  advance-Told page v s (storing username password role, o) h = Told-none _ (
      advance-Refuses st (visit_of v s.1) s.0 (storing username password role)
        (unfold Refuses in tt))
  advance-Told page v s (decided (deny a), none) h = h
  advance-Told page v s (decided (deny a), some answer) h = h
  advance-Told page v s (decided (pass role), none) h = tt
  advance-Told page v s (decided (pass role), some answer) h = tt

  pick-Told :
      (page : HttpRequest → Bytes → HttpResponse) (incoming : ℕ → Incoming) (i : ℕ) (s : System)
      → ((j : ℕ) → Told (s.pc j))
      → (j : ℕ) → Told ((pick (λ k. advance st page (incoming k)) i s).pc j)
  unfolding pick update
  pick-Told page incoming i s h j = elim (Bool-cases (j == i)) [
    | inl same ↦ rw same (advance-Told page (incoming i) s.shared (s.pc i) (h i))
    | inr other ↦ rw other (h j)
  ]

answered-IsRefusal :
    (st : Settings) (stage : Stage) (answer : HttpResponse)
    → stage.1 ≡ some answer
    → Told st stage
    → IsRefusal st answer ⊎ ((role : Bytes) × (stage.0 ≡ decided (pass role)))
unfolding Told
answered-IsRefusal st (decided (deny a), some answer') answer e h =
    let same : answer' ≡ answer = ground arith in inl (rw same at h)
answered-IsRefusal st (decided (pass role), o) answer e h = inr (role, refl)
answered-IsRefusal st (decided (deny a), none) answer e h = absurd cc
answered-IsRefusal st (arrived, o) answer e h = absurd (let no_answer = sym h ∙ e in cc)
answered-IsRefusal st (calling username password, o) answer e h =
    absurd (let no_answer = sym h ∙ e in cc)
answered-IsRefusal st (storing username password role, o) answer e h =
    absurd (let no_answer = sym h ∙ e in cc)

-- With an auth socket and a digest of 32 bytes, and after any number of steps of any number of requests,
-- in any order: a request that has been answered got one of the two answers of the middleware, which
-- are the same for every request, or it was let through by a role, and is then for /healthz, or has
-- credentials with a name that the daemon accepted with that role, in answer to this request or to
-- another one, with the same name and a password of the same digest, that was let through itself and
-- whose answer was stored at most five minutes before this one read the cache.
pub run-IsRefusal :
    (st : Settings) (page : HttpRequest → Bytes → HttpResponse) (incoming : ℕ → Incoming)
    (d : Daemon) (schedule : List ℕ) (i : ℕ) (answer : HttpResponse)
    → IsDigest st.digest
    → is_empty st.socket_path ≡ false
    → ((run st page incoming schedule (start d)).pc i).1 ≡ some answer
    → let s = run st page incoming schedule (start d) in
      IsRefusal st answer
      ⊎ ((role : Bytes) × ((s.pc i).0 ≡ decided (pass role))
          × Admitted st (visits incoming d) (front s) i role)
run-IsRefusal st page incoming d schedule i answer h on e =
    let s = run st page incoming schedule (start d) in
    let seen = front-interleave st page incoming d schedule (start d) in
    let told =
      interleave-keeps (λ j. advance st page (incoming j)) (λ t. (j : ℕ) → Told st (t.pc j))
        (λ j t. pick-Told st page incoming j t) schedule (start d) (λ j. unfold Told in refl) in
    elim (answered-IsRefusal st (s.pc i) answer e (told i)) [
      | inl refused ↦ inl refused
      | inr (role, at) ↦
          let admitted =
            run-Admitted st (visits incoming d) schedule i role h on
              (ap (λ (r : Race.System). r.pc i) (sym seen) ∙ at) in
          inr (role, at, subst (λ r. Admitted st (visits incoming d) r i role) (sym seen) admitted)
    ]
