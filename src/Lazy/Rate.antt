-- ===== src/Lazy/Rate.antt =====
-- How often a collector asks the host, and how old an answer of it is.
use pispot.Base.{
  ℕ, ◌+◌, ◌≤◌, ◌<◌, ◌≡◌, refl, ap, ◌∙◌, sym, ◌⊎◌, inl, inr, true, false, Option, none, some, List,
  [], ◌∷◌, if◌then◌else◌, Bool-cases, if_true, if_false, arith,
}
use pispot.Lazy.{Tick, due, Lazy, collect, effective, last_now, Spaced}

due-monotone :
    (ttl : ℕ) (last : Option ℕ) (m n : ℕ) → m ≤ n → due ttl last m ≡ true → due ttl last n ≡ true
unfolding due
due-monotone ttl none m n h e = refl
due-monotone ttl (some last) m n h e = ground arith

not_due : (ttl at now : ℕ) → due ttl (some at) now ≡ false → now < at + ttl
unfolding due
not_due ttl at now e = ground arith

never_due : (ttl now : ℕ) → due ttl none now ≡ true
unfolding due
never_due ttl now = refl

module _ {C P : Type 0} (l : Lazy C P) where
  refresh-due :
      (t : Tick P) (c : C)
      → due l.ttl (l.last_at c) t.looked_at ≡ true
      → l.refresh t c ≡ l.probed t c
  refresh-due t c h = l.refresh_lem t c ∙ ap (λ b. if b then l.probed t c else c) h

  refresh-kept :
      (t : Tick P) (c : C) → due l.ttl (l.last_at c) t.looked_at ≡ false → l.refresh t c ≡ c
  refresh-kept t c h = l.refresh_lem t c ∙ ap (λ b. if b then l.probed t c else c) h

  -- The time that the collector keeps is that of its snapshot.
  abbrev Stamped : C → Type 0
  Stamped c = (l.last_at c ≡ none) ⊎ (l.last_at c ≡ some (l.shown_at c))

  refresh-Stamped : (t : Tick P) (c : C) → Stamped c → Stamped (l.refresh t c)
  refresh-Stamped t c h = elim (Bool-cases (due l.ttl (l.last_at c) t.looked_at)) [
    | inl stale ↦
        rw (refresh-due t c stale)
          (inr (l.probed-last_at t c ∙ ap some (sym (l.probed-shown_at t c))))
    | inr kept ↦ rw (refresh-kept t c kept) h
  ]

  collect-Stamped : (past : List (Tick P)) → Stamped (collect l past)
  unfolding collect
  collect-Stamped [] = inl l.start-last_at
  collect-Stamped (t ∷ past) = refresh-Stamped t (collect l past) (collect-Stamped past)

  kept_fresh :
      (asked : ℕ) (c : C)
      → Stamped c
      → due l.ttl (l.last_at c) asked ≡ false
      → asked < l.shown_at c + l.ttl
  kept_fresh asked c (inl zero) e =
      absurd (let no = never_due l.ttl asked in let e' = rw zero at e in cc)
  kept_fresh asked c (inr last) e = not_due l.ttl (l.shown_at c) asked (rw last at e)

  snapshot-due :
      (asked : ℕ) (t : Tick P) (c : C)
      → asked ≤ t.looked_at
      → due l.ttl (l.last_at c) asked ≡ true
      → l.snapshot asked t c ≡ l.probed t c
  snapshot-due asked t c later stale =
      l.snapshot_lem asked t c
      ∙ ap (λ b. if b then l.refresh t c else c) stale
      ∙ refresh-due t c (due-monotone l.ttl (l.last_at c) asked t.looked_at later stale)

  snapshot-kept :
      (asked : ℕ) (t : Tick P) (c : C)
      → due l.ttl (l.last_at c) asked ≡ false
      → l.snapshot asked t c ≡ c
  snapshot-kept asked t c fresh =
      l.snapshot_lem asked t c ∙ ap (λ b. if b then l.refresh t c else c) fresh

  -- Behind any row of refreshes, and with a clock that does not go back during the call: what
  -- `Snapshot` returns is younger than `ttl`, counted from the instant of the call, where `ttl` is
  -- not 0.
  pub fresh_snapshot :
      (past : List (Tick P)) (asked : ℕ) (t : Tick P)
      → 0 < l.ttl
      → asked ≤ t.looked_at
      → t.looked_at ≤ t.now
      → asked < l.shown_at (l.snapshot asked t (collect l past)) + l.ttl
  fresh_snapshot past asked t positive later latest =
      elim (Bool-cases (due l.ttl (l.last_at (collect l past)) asked)) [
        | inr fresh ↦
            rw (snapshot-kept asked t (collect l past) fresh)
              (kept_fresh asked (collect l past) (collect-Stamped past) fresh)
        | inl stale ↦
            rw
              (
                snapshot-due asked t (collect l past) later stale,
                l.probed-shown_at t (collect l past),
              )
              (omega arith)
      ]

  effective-due :
      (t : Tick P) (past : List (Tick P))
      → due l.ttl (l.last_at (collect l past)) t.looked_at ≡ true
      → effective l (t ∷ past) ≡ t ∷ effective l past
  unfolding effective
  effective-due t past h = ap (λ b. if b then t ∷ effective l past else effective l past) h

  effective-kept :
      (t : Tick P) (past : List (Tick P))
      → due l.ttl (l.last_at (collect l past)) t.looked_at ≡ false
      → effective l (t ∷ past) ≡ effective l past
  unfolding effective
  effective-kept t past h = ap (λ b. if b then t ∷ effective l past else effective l past) h

  effective-nil : effective l [] ≡ []
  unfolding effective
  effective-nil = refl

  collect-due :
      (t : Tick P) (past : List (Tick P))
      → due l.ttl (l.last_at (collect l past)) t.looked_at ≡ true
      → collect l (t ∷ past) ≡ l.probed t (collect l past)
  unfolding collect
  collect-due t past h = refresh-due t (collect l past) h

  collect-kept :
      (t : Tick P) (past : List (Tick P))
      → due l.ttl (l.last_at (collect l past)) t.looked_at ≡ false
      → collect l (t ∷ past) ≡ collect l past
  unfolding collect
  collect-kept t past h = refresh-kept t (collect l past) h

  -- What holds of the first state and behind every refresh that asks the host holds of every row.
  pub by_effective :
      (Q : List (Tick P) → C → Type 0)
      → Q [] l.start
      → ((t : Tick P) (past : List (Tick P)) (c : C) → Q past c → Q (t ∷ past) (l.probed t c))
      → (past : List (Tick P)) → Q (effective l past) (collect l past)
  by_effective Q base step [] = rw (effective-nil) (unfold collect in base)
  by_effective Q base step (t ∷ past) =
      let ih = by_effective Q base step past in
      elim (Bool-cases (due l.ttl (l.last_at (collect l past)) t.looked_at)) [
        | inl stale ↦
            rw (effective-due t past stale, collect-due t past stale)
              (step t (effective l past) (collect l past) ih)
        | inr kept ↦ rw (effective-kept t past kept, collect-kept t past kept) ih
      ]

  collect-last_at :
      (past : List (Tick P)) → l.last_at (collect l past) ≡ last_now (effective l past)
  collect-last_at =
      by_effective (λ past c. l.last_at c ≡ last_now past) l.start-last_at
        (λ t past c h. l.probed-last_at t c)

  -- The refreshes that ask the host: each looked at the clock at least `ttl` behind the instant that
  -- the one before it stored, over every row of calls.
  pub refreshes-Spaced : (past : List (Tick P)) → Spaced l.ttl (effective l past)
  unfolding Spaced
  refreshes-Spaced [] = rw (effective-nil) tt
  refreshes-Spaced (t ∷ past) =
      elim (Bool-cases (due l.ttl (l.last_at (collect l past)) t.looked_at)) [
        | inl stale ↦
            let last = ap (λ last. due l.ttl last t.looked_at) (sym (collect-last_at past)) in
            rw (effective-due t past stale) (last ∙ stale, refreshes-Spaced past)
        | inr kept ↦ rw (effective-kept t past kept) (refreshes-Spaced past)
      ]

  -- The refreshes behind a call of `Snapshot`: one more, if it finds what is kept stale.
  pub behind : ℕ → Tick P → List (Tick P) → List (Tick P)
  behind asked t past = if due l.ttl (l.last_at (collect l past)) asked then t ∷ past else past

  pub snapshot-behind :
      (asked : ℕ) (t : Tick P) (past : List (Tick P))
      → l.snapshot asked t (collect l past) ≡ collect l (behind asked t past)
  unfolding behind collect
  snapshot-behind asked t past = elim (Bool-cases (due l.ttl (l.last_at (collect l past)) asked)) [
    | inl stale ↦
        l.snapshot_lem asked t (collect l past)
        ∙ if_true _ _ stale
        ∙ sym (ap (collect l) (if_true (t ∷ past) past stale))
    | inr fresh ↦
        l.snapshot_lem asked t (collect l past)
        ∙ if_false _ _ fresh
        ∙ sym (ap (collect l) (if_false (t ∷ past) past fresh))
  ]
