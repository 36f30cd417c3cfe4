-- ===== src/Dashboard/Race/Healthz.antt =====
-- The probe /healthz, whatever else goes on.
use pispot.Base.{
  ℕ, zero, suc, ◌+◌, ◌≤◌, ◌≡◌, refl, ap, subst, ◌∙◌, none, some, List, [], ◌∷◌, ◌==◌, if◌then◌else◌,
  Bool-cases, inl, inr, arith,
}
use pispot.Api.Guards.{mux-healthz}
use pispot.Authz.Middleware.{Settings, pass}
use pispot.Authz.Middleware.Race.{arrived, decided, advance-healthz}
use pispot.Dashboard.{Incoming, visit_of, contact, respond}
use pispot.Authd.{Daemon}
use pispot.Dashboard.Main.{Pages, page, page-healthz}
use pispot.Dashboard.Privilege.{visit_of-http}
use pispot.Dashboard.Race.{Stage, Shared, System, pass_guard, run_handler, advance, run}
use pispot.Go.Bytes.{Bytes, lit}
use pispot.Http.{HttpRequest}
use pispot.Schedule.{update, pick, interleave}
use pispot.Schedule.Progress.{turns}
use pispot.Stats.Request.{healthz}

-- A request for /healthz behind so many steps of its own.
probed : ℕ → Stage
probed zero = (arrived, none)
probed (suc zero) = (decided (pass []), none)
probed (suc (suc n)) = (decided (pass []), some healthz)

module _ (st : Settings) (pages : Pages) (title : Bytes) where
  visited :
      (v : Incoming) (d : Daemon)
      → v.http.path ≡ lit "/healthz"
      → (visit_of v d).http.path ≡ lit "/healthz"
  visited v d h = ap (λ (r : HttpRequest). r.path) (visit_of-http v d) ∙ h

  advance-probed :
      (v : Incoming) (s : Shared) (n : ℕ)
      → v.http.path ≡ lit "/healthz"
      → (advance st (page pages title) v s (probed n)).1 ≡ probed (suc n)
  unfolding probed advance
  advance-probed v s zero h =
      unfold pass_guard in
      ap (λ r. (r.1, none)) (advance-healthz st (visit_of v s.1) s.0 (visited v s.1 h))
  advance-probed v s (suc zero) h =
      unfold run_handler respond in
      ap (λ r. (decided (pass []), some r.0))
        (mux-healthz st.socket_path (contact v.env v.op_link) (page pages title) v.http [] s.1 h)
      ∙ ap (λ r. (decided (pass []), some r)) (page-healthz pages title v.http [] h)
  advance-probed v s (suc (suc n)) h = refl

  pick-probed :
      (incoming : ℕ → Incoming) (i j n : ℕ) (s : System)
      → (incoming i).http.path ≡ lit "/healthz"
      → s.pc i ≡ probed n
      → (pick (λ k. advance st (page pages title) (incoming k)) j s).pc i
        ≡ probed ((if i == j then 1 else 0) + n)
  unfolding pick update
  pick-probed incoming i j n s h at = elim (Bool-cases (i == j)) [
    | inr other ↦ rw other (at ∙ ap probed (omega arith))
    | inl same ↦
        let ij : i ≡ j = ground arith in
        rw (same, ij)
          (ap (λ p. (advance st (page pages title) (incoming j) s.shared p).1)
              (subst (λ k. s.pc k ≡ probed n) ij at)
            ∙ advance-probed (incoming j) s.shared n
                (subst (λ k. (incoming k).http.path ≡ lit "/healthz") ij h)
            ∙ ap probed (omega arith))
  ]

  run-probed :
      (incoming : ℕ → Incoming) (i n : ℕ) (schedule : List ℕ) (s : System)
      → (incoming i).http.path ≡ lit "/healthz"
      → s.pc i ≡ probed n
      → (run st (page pages title) incoming schedule s).pc i ≡ probed (turns i schedule + n)
  unfolding interleave
  run-probed incoming i n [] s h at = at ∙ ap probed (omega arith)
  run-probed incoming i n (j ∷ js) s h at =
      run-probed incoming i ((if i == j then 1 else 0) + n) js
        (pick (λ k. advance st (page pages title) (incoming k)) j s) h
        (pick-probed incoming i j n s h at)
      ∙ ap probed (omega arith)

probed-answered : (n : ℕ) → 2 ≤ n → probed n ≡ (decided (pass []), some healthz)
unfolding probed
probed-answered zero h = absurd (omega arith)
probed-answered (suc zero) h = absurd (omega arith)
probed-answered (suc (suc n)) h = refl

-- Whatever the credentials, the cache, the daemon and the other requests: a request for /healthz that has
-- arrived is let through without a role, and answered with the status 200 and the text ok, behind two
-- steps of its own.
pub run-healthz :
    (st : Settings) (pages : Pages) (title : Bytes) (incoming : ℕ → Incoming) (i : ℕ)
    (schedule : List ℕ) (s : System)
    → (incoming i).http.path ≡ lit "/healthz"
    → s.pc i ≡ (arrived, none)
    → 2 ≤ turns i schedule
    → (run st (page pages title) incoming schedule s).pc i ≡ (decided (pass []), some healthz)
run-healthz st pages title incoming i schedule s h at often =
    run-probed st pages title incoming i 0 schedule s h (at ∙ unfold probed in refl)
    ∙ probed-answered (turns i schedule + 0) (omega arith)
