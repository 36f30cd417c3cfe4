-- ===== src/Admin/Rate.antt =====
-- How often the collector asks the host, and how old an answer of it is.
use pispot.Base.{
  ℕ, ◌+◌, ◌≤◌, ◌<◌, ◌≡◌, refl, inl, inr, true, false, none, some, List, if◌then◌else◌, if_true,
  if_false, Bool-cases,
}
use pispot.Admin.{
  Setup, Probe, Collector, store, note_present, with_addresses, without_interface, probed, refresh,
  snapshot, start,
}
use pispot.Lazy.{Tick, due, Lazy, collect, effective, Spaced}
use pispot.Lazy.Rate.{fresh_snapshot, refreshes-Spaced}
use pispot.Result.{Result, ok, err}

with_addresses-stamps :
    (setup : Setup) (t : Tick Probe) (r : Result (List ℕ)) (c : Collector)
    → ((with_addresses setup t r c).last_at ≡ some t.now)
      × ((with_addresses setup t r c).snap.at ≡ t.now)
unfolding with_addresses store
with_addresses-stamps setup t (err e) c = (refl, refl)
with_addresses-stamps setup t (ok out) c = (refl, refl)

pub probed-here :
    (setup : Setup) (t : Tick Probe) (c : Collector)
    → t.probe.exists ≡ true
    → probed setup t c ≡ with_addresses setup t t.probe.addresses (note_present c)
unfolding probed
probed-here setup t c h = if_true _ _ h

pub probed-gone :
    (setup : Setup) (t : Tick Probe) (c : Collector)
    → t.probe.exists ≡ false
    → probed setup t c ≡ without_interface setup t c
unfolding probed
probed-gone setup t c h = if_false _ _ h

pub probed-stamps :
    (setup : Setup) (t : Tick Probe) (c : Collector)
    → ((probed setup t c).last_at ≡ some t.now) × ((probed setup t c).snap.at ≡ t.now)
probed-stamps setup t c = elim (Bool-cases t.probe.exists) [
  | inl here ↦
      rw (probed-here setup t c here)
        (with_addresses-stamps setup t t.probe.addresses (note_present c))
  | inr gone ↦ rw (probed-gone setup t c gone) (unfold without_interface store in (refl, refl))
]

pub refresh_lem :
    (setup : Setup) (t : Tick Probe) (c : Collector)
    → refresh setup t c ≡ (if due setup.ttl c.last_at t.looked_at then probed setup t c else c)
unfolding refresh
refresh_lem setup t c = refl

pub snapshot_lem :
    (setup : Setup) (asked : ℕ) (t : Tick Probe) (c : Collector)
    → snapshot setup asked t c ≡ (if due setup.ttl c.last_at asked then refresh setup t c else c)
unfolding snapshot
snapshot_lem setup asked t c = refl

pub start-last_at : (setup : Setup) (began : ℕ) → (start setup began).last_at ≡ none
unfolding start
start-last_at setup began = refl

abbrev pub lazy : Setup → ℕ → Lazy Collector Probe
lazy setup began = record {
  ttl = setup.ttl;
  last_at = λ c. c.last_at;
  shown_at = λ c. c.snap.at;
  start = start setup began;
  probed = probed setup;
  refresh = refresh setup;
  snapshot = snapshot setup;
  start-last_at = start-last_at setup began;
  probed-last_at = λ t c. (probed-stamps setup t c).0;
  probed-shown_at = λ t c. (probed-stamps setup t c).1;
  refresh_lem = refresh_lem setup;
  snapshot_lem = snapshot_lem setup;
}

-- Behind any row of refreshes, and with a clock that does not go back during the call: what
-- `Snapshot` returns is younger than `ttl`, counted from the instant of the call, where `ttl` is not 0.
pub snapshot_is_fresh :
    (setup : Setup) (began : ℕ) (past : List (Tick Probe)) (asked : ℕ) (t : Tick Probe)
    → 0 < setup.ttl
    → asked ≤ t.looked_at
    → t.looked_at ≤ t.now
    → asked < (snapshot setup asked t (collect (lazy setup began) past)).snap.at + setup.ttl
snapshot_is_fresh setup began past asked t = fresh_snapshot (lazy setup began) past asked t

-- The refreshes that ask the host: each looked at the clock at least `ttl` behind the instant that
-- the one before it stored, over every row of calls.
pub effective-Spaced :
    (setup : Setup) (began : ℕ) (past : List (Tick Probe))
    → Spaced setup.ttl (effective (lazy setup began) past)
effective-Spaced setup began past = refreshes-Spaced (lazy setup began) past
