-- ===== src/WanLink/Collector/Rate.antt =====
-- The collector as one that asks the host again once its snapshot is as old as `ttl`.
use pispot.Base.{
  ℕ, ◌≡◌, refl, ◌<◌, ◌≤◌, ◌+◌, inl, inr, true, false, none, some, List, if◌then◌else◌, if_true,
  if_false, Bool-cases,
}
use pispot.Go.Bytes.{Bytes}
use pispot.Lazy.{Tick, due, Lazy, collect}
use pispot.Lazy.Rate.{fresh_snapshot}
use pispot.Result.{Result, ok, err}
use pispot.WanLink.{Link, parse_iw_link}
use pispot.WanLink.Collector.{
  Setup, Probe, Collector, store, store_success, store_failure, note_present, note_connected,
  note_disconnected, idle, with_routes, with_addresses, with_link, with_iw, without_interface,
  probed, refresh, snapshot, start,
}

-- Stored at the instant `now`.
abbrev Stamps : {F : Type 0} → ℕ → Collector F → Type 0
Stamps now c = (c.last_at ≡ some now) × (c.snap.at ≡ now)

module _ {F : Type 0} (setup : Setup F) where
  with_routes-Stamps :
      (t : Tick Probe) (link : Link F) (addresses : Bytes) (r : Result Bytes) (c : Collector F)
      → Stamps t.now (with_routes setup t link addresses r c)
  unfolding with_routes store_success store_failure store
  with_routes-Stamps t link addresses (err e) c = (refl, refl)
  with_routes-Stamps t link addresses (ok routes) c = (refl, refl)

  with_addresses-Stamps :
      (t : Tick Probe) (link : Link F) (r : Result Bytes) (c : Collector F)
      → Stamps t.now (with_addresses setup t link r c)
  unfolding with_addresses store_failure store
  with_addresses-Stamps t link (err e) c = (refl, refl)
  with_addresses-Stamps t link (ok addresses) c =
      with_routes-Stamps t link addresses t.probe.routes c

  pub with_link-on :
      (t : Tick Probe) (link : Link F) (c : Collector F)
      → link.connected ≡ true
      → with_link setup t link c
        ≡ with_addresses setup t link t.probe.addresses (note_connected setup link c)
  unfolding with_link
  with_link-on t link c h = if_true _ _ h

  pub with_link-off :
      (t : Tick Probe) (link : Link F) (c : Collector F)
      → link.connected ≡ false
      → with_link setup t link c
        ≡ store_success setup t.now (idle setup t.probe) (note_disconnected setup c)
  unfolding with_link
  with_link-off t link c h = if_false _ _ h

  with_link-Stamps :
      (t : Tick Probe) (link : Link F) (c : Collector F) → Stamps t.now (with_link setup t link c)
  with_link-Stamps t link c = elim (Bool-cases link.connected) [
    | inl on ↦
        rw (with_link-on t link c on)
          (with_addresses-Stamps t link t.probe.addresses (note_connected setup link c))
    | inr off ↦ rw (with_link-off t link c off) (unfold store_success store in (refl, refl))
  ]

  with_iw-Stamps :
      (t : Tick Probe) (r : Result Bytes) (c : Collector F) → Stamps t.now (with_iw setup t r c)
  unfolding with_iw store_failure store
  with_iw-Stamps t (err e) c = (refl, refl)
  with_iw-Stamps t (ok raw) c = with_link-Stamps t (parse_iw_link setup.floats setup.unicode raw) c

  pub probed-here :
      (t : Tick Probe) (c : Collector F)
      → t.probe.exists ≡ true
      → probed setup t c ≡ with_iw setup t t.probe.link (note_present setup c)
  unfolding probed
  probed-here t c h = if_true _ _ h

  pub probed-gone :
      (t : Tick Probe) (c : Collector F)
      → t.probe.exists ≡ false
      → probed setup t c ≡ without_interface setup t c
  unfolding probed
  probed-gone t c h = if_false _ _ h

  pub probed-Stamps : (t : Tick Probe) (c : Collector F) → Stamps t.now (probed setup t c)
  probed-Stamps t c = elim (Bool-cases t.probe.exists) [
    | inl here ↦ rw (probed-here t c here) (with_iw-Stamps t t.probe.link (note_present setup c))
    | inr gone ↦ rw (probed-gone t c gone) (unfold without_interface store in (refl, refl))
  ]

  pub refresh_lem :
      (t : Tick Probe) (c : Collector F)
      → refresh setup t c ≡ (if due setup.ttl c.last_at t.looked_at then probed setup t c else c)
  unfolding refresh
  refresh_lem t c = refl

  pub snapshot_lem :
      (asked : ℕ) (t : Tick Probe) (c : Collector F)
      → snapshot setup asked t c ≡ (if due setup.ttl c.last_at asked then refresh setup t c else c)
  unfolding snapshot
  snapshot_lem asked t c = refl

  pub start-last_at : (began : ℕ) → (start setup began).last_at ≡ none
  unfolding start
  start-last_at began = refl

  abbrev pub lazy : ℕ → Lazy (Collector F) Probe
  lazy began = record {
    ttl = setup.ttl;
    last_at = λ c. c.last_at;
    shown_at = λ c. c.snap.at;
    start = start setup began;
    probed = probed setup;
    refresh = refresh setup;
    snapshot = snapshot setup;
    start-last_at = start-last_at began;
    probed-last_at = λ t c. (probed-Stamps t c).0;
    probed-shown_at = λ t c. (probed-Stamps t c).1;
    refresh_lem = refresh_lem;
    snapshot_lem = snapshot_lem;
  }

  -- What `Snapshot` returns is younger than `ttl`, as for the administration interface.
  fresh_link :
      (began : ℕ) (past : List (Tick Probe)) (asked : ℕ) (t : Tick Probe)
      → 0 < setup.ttl
      → asked ≤ t.looked_at
      → t.looked_at ≤ t.now
      → asked < (snapshot setup asked t (collect (lazy began) past)).snap.at + setup.ttl
  fresh_link began past asked t = fresh_snapshot (lazy began) past asked t
