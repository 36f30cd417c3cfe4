-- ===== src/Admin/Log.antt =====
-- The lines that the collector logs.
use pispot.Base.{
  ℕ, ◌≡◌, refl, ap, ◌∙◌, inl, inr, Bool, true, false, not, List, [], ◌∷◌, if◌then◌else◌, Bool-cases,
}
use pispot.Go.Bytes.{Bytes}
use pispot.Admin.{
  Info, Entry, absent, present, changed, Setup, Probe, Collector, start, store, note_change,
  note_present, note_absent, with_addresses, without_interface, probed,
}
use pispot.Admin.Rate.{probed-here, probed-gone, lazy}
use pispot.Lazy.{Tick, collect, effective}
use pispot.Lazy.Rate.{by_effective}
use pispot.Result.{Result, ok, err}

-- The last refresh did not find the interface.
pub was_absent : List (Tick Probe) → Bool
was_absent [] = false
was_absent (t ∷ past) = not t.probe.exists

-- A log, the last line first, in which absences and presences take turns: `gone` tells whether the
-- last of them is an absence, and the first of them is one.
pub Alternates : Bool → List Entry → Type 0
Alternates gone [] = gone ≡ false
Alternates gone (absent ∷ log) = (gone ≡ true) × Alternates false log
Alternates gone (present ∷ log) = (gone ≡ false) × Alternates true log
Alternates gone (changed link ip gateway ∷ log) = Alternates gone log

abbrev pub Keeps : Bool → Collector → Type 0
Keeps gone c = (c.prev_absent ≡ gone) × Alternates gone c.log

note_present-Keeps : (gone : Bool) (c : Collector) → Keeps gone c → Keeps false (note_present c)
unfolding note_present Alternates
note_present-Keeps true c (was, log) = rw was (refl, (refl, log))
note_present-Keeps false c (was, log) = rw was (refl, log)

note_absent-Keeps : (gone : Bool) (c : Collector) → Keeps gone c → Keeps true (note_absent c)
unfolding note_absent Alternates
note_absent-Keeps true c (was, log) = rw was (refl, log)
note_absent-Keeps false c (was, log) = rw was (refl, (refl, log))

Keeps-if :
    (b gone : Bool) (c d : Collector)
    → Keeps gone c
    → Keeps gone d
    → Keeps gone (if b then c else d)
Keeps-if true gone c d h k = h
Keeps-if false gone c d h k = k

note_change-Keeps :
    (info : Info) (gone : Bool) (c : Collector) → Keeps gone c → Keeps gone (note_change info c)
unfolding note_change Alternates
note_change-Keeps info gone c h = Keeps-if _ gone _ c h h

with_addresses-Keeps :
    (setup : Setup) (t : Tick Probe) (r : Result Bytes) (gone : Bool) (c : Collector)
    → Keeps gone c
    → Keeps gone (with_addresses setup t r c)
unfolding with_addresses store
with_addresses-Keeps setup t (err e) gone c h = h
with_addresses-Keeps setup t (ok out) gone c h = note_change-Keeps _ gone c h

was_absent-cons :
    (t : Tick Probe) (past : List (Tick Probe)) → was_absent (t ∷ past) ≡ not t.probe.exists
unfolding was_absent
was_absent-cons t past = refl

probed-Keeps :
    (setup : Setup) (t : Tick Probe) (past : List (Tick Probe)) (c : Collector)
    → Keeps (was_absent past) c
    → Keeps (was_absent (t ∷ past)) (probed setup t c)
probed-Keeps setup t past c h = elim (Bool-cases t.probe.exists) [
  | inl here ↦
      rw (probed-here setup t c here, was_absent-cons t past ∙ ap not here)
        (with_addresses-Keeps setup t t.probe.addresses false (note_present c)
          (note_present-Keeps (was_absent past) c h))
  | inr gone ↦
      rw (probed-gone setup t c gone, was_absent-cons t past ∙ ap not gone)
        (unfold without_interface store in note_absent-Keeps (was_absent past) c h)
]

start-Keeps : (setup : Setup) (began : ℕ) → Keeps (was_absent []) (start setup began)
unfolding start was_absent Alternates
start-Keeps setup began = (refl, refl)

-- Behind every row of refreshes, the collector knows whether the last of them found the interface,
-- and has logged absences and presences in turn, an absence first: no change is logged twice.
pub collect-Keeps :
    (setup : Setup) (began : ℕ) (past : List (Tick Probe))
    → Keeps (was_absent (effective (lazy setup began) past)) (collect (lazy setup began) past)
collect-Keeps setup began =
    by_effective (lazy setup began) (λ past c. Keeps (was_absent past) c) (start-Keeps setup began)
      (probed-Keeps setup)
