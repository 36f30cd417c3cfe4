-- ===== src/Admin/History.antt =====
-- What a snapshot shows, by the answers of the host alone.
use pispot.Base.{
  is_some, ℕ, ◌≡◌, refl, ap, ◌∙◌, inl, inr, Bool, true, false, not, ◌&&◌, List, [], ◌∷◌,
  if◌then◌else◌, Bool-cases, arith,
}
use pispot.Go.Bytes.{Bytes}
use pispot.Admin.{
  Info, Snapshot, Setup, Probe, Collector, blank, start, store, note_present, note_absent,
  with_addresses, without_interface, probed, is_up, address_of, route_gateway, operstate_error,
}
use pispot.Admin.Rate.{probed-here, probed-gone, lazy}
use pispot.Lazy.{Tick, collect, effective}
use pispot.Lazy.Rate.{by_effective}
use pispot.Result.{Result, ok, err}

-- What a probe finds, where `before` is what was shown before it. The addresses that could not be
-- asked for are those shown before.
found_by : Setup → Probe → Result Bytes → Info → Info
found_by setup p (err e) before = record {
  interface = setup.iface;
  ip = before.ip;
  gateway = before.gateway;
  link = is_up p.operstate;
}
found_by setup p (ok out) before = record {
  interface = setup.iface;
  ip = address_of (setup.decode_addresses out);
  gateway = route_gateway setup p.routes;
  link = is_up p.operstate;
}

-- What the answers give, the last of them first. An interface that is not there shows nothing, and
-- nothing of what was known before survives it.
pub shown : Setup → List (Tick Probe) → Info
shown setup [] = blank setup.iface
shown setup (t ∷ past) =
    let before = shown setup past in
    if t.probe.exists then found_by setup t.probe t.probe.addresses before else blank setup.iface

answered : Result Bytes → Bool
answered (err e) = false
answered (ok out) = true

-- The last probe found the interface, its state and its addresses.
pub healthy : List (Tick Probe) → Bool
healthy [] = true
healthy (t ∷ past) = t.probe.exists && answered t.probe.addresses && answered t.probe.operstate

note_present-snap : (c : Collector) → (note_present c).snap ≡ c.snap
unfolding note_present
note_present-snap c = ground arith

note_absent-snap : (c : Collector) → (note_absent c).snap ≡ c.snap
unfolding note_absent
note_absent-snap c = ground arith

-- A collector that shows what the answers give, and says whether the last of them was whole.
abbrev pub Shows : Setup → List (Tick Probe) → Collector → Type 0
Shows setup past c = (c.snap.info ≡ shown setup past) × (is_some c.snap.failed ≡ not (healthy past))

with_addresses-info :
    (setup : Setup) (t : Tick Probe) (r : Result Bytes) (c : Collector)
    → (with_addresses setup t r c).snap.info ≡ found_by setup t.probe r c.snap.info
unfolding with_addresses store found_by
with_addresses-info setup t (err e) c = refl
with_addresses-info setup t (ok out) c = refl

with_addresses-failed :
    (setup : Setup) (t : Tick Probe) (addresses operstate : Result Bytes) (c : Collector)
    → t.probe.operstate ≡ operstate
    → is_some (with_addresses setup t addresses c).snap.failed
      ≡ not (answered addresses && answered operstate)
unfolding with_addresses store answered operstate_error
with_addresses-failed setup t (err e) operstate c h = refl
with_addresses-failed setup t (ok out) (err e) c h = rw h refl
with_addresses-failed setup t (ok out) (ok state) c h = rw h refl

shown-here :
    (setup : Setup) (t : Tick Probe) (past : List (Tick Probe))
    → t.probe.exists ≡ true
    → shown setup (t ∷ past) ≡ found_by setup t.probe t.probe.addresses (shown setup past)
unfolding shown
shown-here setup t past h =
    ap
      (λ b.
        if b
        then found_by setup t.probe t.probe.addresses (shown setup past)
        else blank setup.iface)
      h

shown-gone :
    (setup : Setup) (t : Tick Probe) (past : List (Tick Probe))
    → t.probe.exists ≡ false
    → shown setup (t ∷ past) ≡ blank setup.iface
unfolding shown
shown-gone setup t past h =
    ap
      (λ b.
        if b
        then found_by setup t.probe t.probe.addresses (shown setup past)
        else blank setup.iface)
      h

healthy-cons :
    (t : Tick Probe) (past : List (Tick Probe)) (here : Bool)
    → t.probe.exists ≡ here
    → healthy (t ∷ past) ≡ here && answered t.probe.addresses && answered t.probe.operstate
unfolding healthy
healthy-cons t past here h =
    ap (λ b. b && answered t.probe.addresses && answered t.probe.operstate) h

probed-Shows :
    (setup : Setup) (t : Tick Probe) (past : List (Tick Probe)) (c : Collector)
    → Shows setup past c
    → Shows setup (t ∷ past) (probed setup t c)
probed-Shows setup t past c (info, failed) = elim (Bool-cases t.probe.exists) [
  | inl here ↦
      rw (probed-here setup t c here, shown-here setup t past here, healthy-cons t past true here)
        (
          with_addresses-info setup t t.probe.addresses (note_present c)
              ∙ ap (λ (s : Snapshot). found_by setup t.probe t.probe.addresses s.info)
                  (note_present-snap c)
              ∙ ap (found_by setup t.probe t.probe.addresses) info,
          with_addresses-failed setup t t.probe.addresses t.probe.operstate (note_present c) refl,
        )
  | inr gone ↦
      rw (probed-gone setup t c gone, shown-gone setup t past gone, healthy-cons t past false gone)
        (unfold without_interface store in (refl, refl))
]

start-Shows : (setup : Setup) (began : ℕ) → Shows setup [] (start setup began)
unfolding start shown healthy
start-Shows setup began = (refl, refl)

-- Behind every row of refreshes, the snapshot shows what the answers of the host give: the last known
-- addresses where the addresses could not be asked for, nothing from before an absence of the
-- interface; and it has an error if and only if the last probe was not whole.
pub collect-Shows :
    (setup : Setup) (began : ℕ) (past : List (Tick Probe))
    → Shows setup (effective (lazy setup began) past) (collect (lazy setup began) past)
collect-Shows setup began =
    by_effective (lazy setup began) (Shows setup) (start-Shows setup began) (probed-Shows setup)
