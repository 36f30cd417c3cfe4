-- ===== src/Sysinfo/Collector/Throttle.antt =====
-- What `Run` logs of the throttling.
use pispot.Base.{ℕ, ◌≡◌, refl, Bool, true, false, List, [], ◌∷◌}
use pispot.Sysinfo.Collector.{
  Setup, Reading, Entry, hot, cool, Loop, entry, differ, note, tick, run,
}

-- A log, the last line first, in which the two kinds take turns: `throttled` tells whether the last of
-- them is a throttling, and the first of them is one.
Alternates : {F : Type 0} → Bool → List (Entry F) → Type 0
Alternates throttled [] = throttled ≡ false
Alternates throttled (hot t ∷ log) = (throttled ≡ true) × Alternates false log
Alternates throttled (cool t ∷ log) = (throttled ≡ false) × Alternates true log

-- Whether the last tick behind the first found the host throttled.
pub was_throttled : {F : Type 0} → Setup F → List Reading → Bool
was_throttled setup [] = false
was_throttled setup (r ∷ []) = false
was_throttled setup (r ∷ q ∷ past) = (tick setup r).info.throttled

pub Keeps : {F : Type 0} → Bool → Loop F → Type 0
Keeps throttled l = (l.prev_throttled ≡ throttled) × Alternates throttled l.log

note-Keeps :
    {F : Type 0} (was now : Bool) (l : Loop F)
    → l.snap.info.throttled ≡ now
    → Keeps was l
    → Keeps now (note l)
unfolding note Keeps Alternates differ entry
note-Keeps true true l h (prev, log) = rw (h, prev) (refl, log)
note-Keeps true false l h (prev, log) = rw (h, prev) (refl, (refl, log))
note-Keeps false true l h (prev, log) = rw (h, prev) (refl, (refl, log))
note-Keeps false false l h (prev, log) = rw (h, prev) (refl, log)

-- Behind every row of ticks, throttlings and their ends take turns in the log, a throttling first, and
-- the last line tells what the last tick found, if there was one behind the first.
pub run-Keeps :
    {F : Type 0} (setup : Setup F) (began : ℕ) (past : List Reading)
    → Keeps (was_throttled setup past) (run setup began past)
unfolding run was_throttled Keeps Alternates
run-Keeps setup began [] = (refl, refl)
run-Keeps setup began (r ∷ []) = (refl, refl)
run-Keeps setup began (r ∷ q ∷ past) =
    let before = run-Keeps setup began (q ∷ past) in
    note-Keeps (was_throttled setup (q ∷ past)) (tick setup r).info.throttled _ refl before
