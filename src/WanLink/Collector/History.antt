-- ===== src/WanLink/Collector/History.antt =====
-- What a snapshot shows, by the answers of the host alone.
use pispot.Base.{
  is_some, ℕ, ◌≡◌, refl, ap, ◌∙◌, inl, inr, Bool, true, false, not, ◌&&◌, Option, none, some, List,
  [], ◌∷◌, if◌then◌else◌, if_true, if_false, Bool-cases, arith,
}
use pispot.Go.Bytes.{Bytes}
use pispot.Lazy.{Tick, collect, effective}
use pispot.Lazy.Rate.{by_effective}
use pispot.Result.{Result, ok, err}
use pispot.WanLink.{Link, parse_iw_link}
use pispot.WanLink.Collector.{
  Info, Snapshot, Setup, Probe, Collector, blank, start, store, store_success, store_failure,
  note_present, note_connected, idle, joined, with_routes, with_addresses, with_link, with_iw,
  without_interface, probed,
}
use pispot.WanLink.Collector.Rate.{with_link-on, with_link-off, probed-here, probed-gone, lazy}

-- What an answer gives: a view of the interface, or nothing where a command failed.
abbrev View : Type 0 → Type 0
View F = Option (Info F)

or_before : {F : Type 0} → View F → Info F → Info F
or_before none before = before
or_before (some info) before = info

module _ {F : Type 0} (setup : Setup F) where
  seen_routes : Probe → Link F → Bytes → Result Bytes → View F
  seen_routes p link addresses (err e) = none
  seen_routes p link addresses (ok routes) = some (joined setup p link addresses routes)

  seen_addresses : Probe → Link F → Result Bytes → View F
  seen_addresses p link (err e) = none
  seen_addresses p link (ok addresses) = seen_routes p link addresses p.routes

  seen_link : Probe → Link F → View F
  seen_link p link =
      if link.connected then seen_addresses p link p.addresses else some (idle setup p)

  seen : Probe → Result Bytes → View F
  seen p (err e) = none
  seen p (ok raw) = seen_link p (parse_iw_link setup.floats setup.unicode raw)

  -- What the answers give, the last of them first: the view of the last probe whose commands all
  -- worked, since the interface was last absent.
  pub shown : List (Tick Probe) → Info F
  shown [] = blank setup
  shown (t ∷ past) =
      let before = shown past in
      if t.probe.exists then or_before (seen t.probe t.probe.link) before else blank setup

  -- The last probe found the interface, and its commands worked.
  pub healthy : List (Tick Probe) → Bool
  healthy [] = true
  healthy (t ∷ past) = t.probe.exists && is_some (seen t.probe t.probe.link)

  -- A collector that shows what the answers give, and says whether the last of them was whole.
  abbrev pub Shows : List (Tick Probe) → Collector F → Type 0
  Shows past c = (c.snap.info ≡ shown past) × (is_some c.snap.failed ≡ not (healthy past))

  -- A new state that shows a view, or else what was shown before.
  abbrev Takes : View F → Info F → Collector F → Type 0
  Takes view before c =
      (c.snap.info ≡ or_before view before) × (is_some c.snap.failed ≡ not (is_some view))

  with_routes-Takes :
      (t : Tick Probe) (link : Link F) (addresses : Bytes) (r : Result Bytes) (c : Collector F)
      → Takes
          (seen_routes t.probe link addresses r)
          c.snap.info
          (with_routes setup t link addresses r c)
  unfolding with_routes store_success store_failure store seen_routes or_before
  with_routes-Takes t link addresses (err e) c = (refl, refl)
  with_routes-Takes t link addresses (ok routes) c = (refl, refl)

  with_addresses-Takes :
      (t : Tick Probe) (link : Link F) (r : Result Bytes) (c : Collector F)
      → Takes (seen_addresses t.probe link r) c.snap.info (with_addresses setup t link r c)
  unfolding with_addresses store_failure store seen_addresses or_before
  with_addresses-Takes t link (err e) c = (refl, refl)
  with_addresses-Takes t link (ok addresses) c = with_routes-Takes t link addresses t.probe.routes c

  note_connected-snap :
      (link : Link F) (c : Collector F) → (note_connected setup link c).snap ≡ c.snap
  unfolding note_connected
  note_connected-snap link c = ground arith

  note_present-snap : (c : Collector F) → (note_present setup c).snap ≡ c.snap
  unfolding note_present
  note_present-snap c = ground arith

  seen_link-on :
      (p : Probe) (link : Link F)
      → link.connected ≡ true
      → seen_link p link ≡ seen_addresses p link p.addresses
  unfolding seen_link
  seen_link-on p link h = if_true _ _ h

  seen_link-off :
      (p : Probe) (link : Link F) → link.connected ≡ false → seen_link p link ≡ some (idle setup p)
  unfolding seen_link
  seen_link-off p link h = if_false _ _ h

  with_link-Takes :
      (t : Tick Probe) (link : Link F) (c : Collector F)
      → Takes (seen_link t.probe link) c.snap.info (with_link setup t link c)
  with_link-Takes t link c = elim (Bool-cases link.connected) [
    | inl on ↦
        let (info, failed) =
          with_addresses-Takes t link t.probe.addresses (note_connected setup link c) in
        rw (with_link-on setup t link c on, seen_link-on t.probe link on)
          (
            info
                ∙ ap
                    (λ (s : Snapshot F).
                      or_before (seen_addresses t.probe link t.probe.addresses) s.info)
                    (note_connected-snap link c),
            failed,
          )
    | inr off ↦
        rw (with_link-off setup t link c off, seen_link-off t.probe link off)
          (unfold store_success store or_before in (refl, refl))
  ]

  with_iw-Takes :
      (t : Tick Probe) (r : Result Bytes) (c : Collector F)
      → Takes (seen t.probe r) c.snap.info (with_iw setup t r c)
  unfolding with_iw store_failure store seen or_before
  with_iw-Takes t (err e) c = (refl, refl)
  with_iw-Takes t (ok raw) c = with_link-Takes t (parse_iw_link setup.floats setup.unicode raw) c

  shown-here :
      (t : Tick Probe) (past : List (Tick Probe))
      → t.probe.exists ≡ true
      → shown (t ∷ past) ≡ or_before (seen t.probe t.probe.link) (shown past)
  unfolding shown
  shown-here t past h = if_true _ _ h

  shown-gone :
      (t : Tick Probe) (past : List (Tick Probe))
      → t.probe.exists ≡ false
      → shown (t ∷ past) ≡ blank setup
  unfolding shown
  shown-gone t past h = if_false _ _ h

  healthy-cons :
      (t : Tick Probe) (past : List (Tick Probe)) (here : Bool)
      → t.probe.exists ≡ here
      → healthy (t ∷ past) ≡ here && is_some (seen t.probe t.probe.link)
  unfolding healthy
  healthy-cons t past here h = ap (λ b. b && is_some (seen t.probe t.probe.link)) h

  probed-Shows :
      (t : Tick Probe) (past : List (Tick Probe)) (c : Collector F)
      → Shows past c
      → Shows (t ∷ past) (probed setup t c)
  probed-Shows t past c (info, failed) = elim (Bool-cases t.probe.exists) [
    | inl here ↦
        let (taken, whole) = with_iw-Takes t t.probe.link (note_present setup c) in
        rw (probed-here setup t c here, shown-here t past here, healthy-cons t past true here)
          (
            taken
                ∙ ap (λ (s : Snapshot F). or_before (seen t.probe t.probe.link) s.info)
                    (note_present-snap c)
                ∙ ap (or_before (seen t.probe t.probe.link)) info,
            whole,
          )
    | inr gone ↦
        rw (probed-gone setup t c gone, shown-gone t past gone, healthy-cons t past false gone)
          (unfold without_interface store in (refl, refl))
  ]

  start-Shows : (began : ℕ) → Shows [] (start setup began)
  unfolding start shown healthy
  start-Shows began = (refl, refl)

-- Behind every row of refreshes, the snapshot shows the view of the last probe whose commands all
-- worked, since the interface was last absent: without an association only the interface and its
-- supplicant, with one its names and numbers, the address and the gateway; and it has an error if and
-- only if the last probe did not find the interface or a command of it failed.
pub collect-view :
    {F : Type 0} (setup : Setup F) (began : ℕ) (past : List (Tick Probe))
    → Shows setup (effective (lazy setup began) past) (collect (lazy setup began) past)
collect-view setup began =
    by_effective (lazy setup began) (Shows setup) (start-Shows setup began) (probed-Shows setup)
