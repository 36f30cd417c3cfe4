-- ===== src/Hotspot/Collector/History.antt =====
-- Which clients a snapshot shows, by the answers of the host alone.
use pispot.Base.{
  is_some, ℕ, ◌≡◌, refl, ap, ◌∙◌, inl, inr, Bool, true, false, not, ◌&&◌, List, [], ◌∷◌,
  if◌then◌else◌, Bool-cases, arith,
}
use pispot.Go.Bytes.{Bytes}
use pispot.Hotspot.Collector.{
  Snapshot, Setup, Reading, contents, missing, unreadable, Probe, Collector, start, store,
  note_present, listed, lease_error, with_stations, without_interface, probed,
}
use pispot.Hotspot.Collector.Rate.{probed-here, probed-gone, lazy}
use pispot.Hotspot.Stations.{Client}
use pispot.Lazy.{Tick, collect, effective}
use pispot.Lazy.Rate.{by_effective}
use pispot.Result.{Result, ok, err}

-- What a probe finds, where `before` is what was shown before it.
found_by : Setup → Reading → Result Bytes → List Client → List Client
found_by setup leases (err e) before = before
found_by setup leases (ok raw) before = listed setup raw leases

-- What the answers give, the last of them first: the clients of the last answer of `iw` since the
-- interface was last absent.
pub shown : Setup → List (Tick Probe) → List Client
shown setup [] = []
shown setup (t ∷ past) =
    let before = shown setup past in
    if t.probe.exists then found_by setup t.probe.leases t.probe.stations before else []

answered : Result Bytes → Bool
answered (err e) = false
answered (ok raw) = true

readable : Reading → Bool
readable (contents raw) = true
readable missing = true
readable (unreadable e) = false

-- The last probe found the interface and its stations, and could read the leases or found no file.
pub healthy : List (Tick Probe) → Bool
healthy [] = true
healthy (t ∷ past) = t.probe.exists && answered t.probe.stations && readable t.probe.leases

-- A collector that shows what the answers give, and says whether the last of them was whole.
abbrev pub Shows : Setup → List (Tick Probe) → Collector → Type 0
Shows setup past c =
    (c.snap.clients ≡ shown setup past) × (is_some c.snap.failed ≡ not (healthy past))

note_present-snap : (c : Collector) → (note_present c).snap ≡ c.snap
unfolding note_present
note_present-snap c = ground arith

with_stations-Shows :
    (setup : Setup) (t : Tick Probe) (r : Result Bytes) (leases : Reading) (c : Collector)
    → t.probe.leases ≡ leases
    → ((with_stations setup t r c).snap.clients ≡ found_by setup leases r c.snap.clients)
      × (is_some (with_stations setup t r c).snap.failed ≡ not (answered r && readable leases))
unfolding with_stations store found_by answered readable lease_error
with_stations-Shows setup t (err e) leases c h = (refl, refl)
with_stations-Shows setup t (ok raw) (contents s) c h = rw h (refl, refl)
with_stations-Shows setup t (ok raw) missing c h = rw h (refl, refl)
with_stations-Shows setup t (ok raw) (unreadable e) c h = rw h (refl, refl)

shown-cons :
    (setup : Setup) (t : Tick Probe) (past : List (Tick Probe)) (here : Bool)
    → t.probe.exists ≡ here
    → shown setup (t ∷ past)
      ≡ (if here then found_by setup t.probe.leases t.probe.stations (shown setup past) else [])
unfolding shown
shown-cons setup t past here h =
    ap (λ b. if b then found_by setup t.probe.leases t.probe.stations (shown setup past) else []) h

healthy-cons :
    (t : Tick Probe) (past : List (Tick Probe)) (here : Bool)
    → t.probe.exists ≡ here
    → healthy (t ∷ past) ≡ here && answered t.probe.stations && readable t.probe.leases
unfolding healthy
healthy-cons t past here h = ap (λ b. b && answered t.probe.stations && readable t.probe.leases) h

probed-Shows :
    (setup : Setup) (t : Tick Probe) (past : List (Tick Probe)) (c : Collector)
    → Shows setup past c
    → Shows setup (t ∷ past) (probed setup t c)
probed-Shows setup t past c (clients, failed) = elim (Bool-cases t.probe.exists) [
  | inl here ↦
      let (same, whole) =
        with_stations-Shows setup t t.probe.stations t.probe.leases (note_present c) refl in
      rw
        (
          probed-here setup t c here,
          shown-cons setup t past true here,
          healthy-cons t past true here,
        )
        (
          same
              ∙ ap (λ (s : Snapshot). found_by setup t.probe.leases t.probe.stations s.clients)
                  (note_present-snap c)
              ∙ ap (found_by setup t.probe.leases t.probe.stations) clients,
          whole,
        )
  | inr gone ↦
      rw
        (
          probed-gone setup t c gone,
          shown-cons setup t past false gone,
          healthy-cons t past false gone,
        )
        (unfold without_interface store in (refl, refl))
]

start-Shows : (setup : Setup) (began : ℕ) → Shows setup [] (start setup began)
unfolding start shown healthy
start-Shows setup began = (refl, refl)

-- Behind every row of refreshes, the snapshot shows the clients of the last answer of `iw` since the
-- interface was last absent, with the leases read then, and none before the first; and it has an error
-- if and only if the last probe did not find the interface, `iw` failed, or the lease file was there
-- and could not be read.
pub collect-clients :
    (setup : Setup) (began : ℕ) (past : List (Tick Probe))
    → Shows setup (effective (lazy setup began) past) (collect (lazy setup began) past)
collect-clients setup began =
    by_effective (lazy setup began) (Shows setup) (start-Shows setup began) (probed-Shows setup)
