-- ===== src/Dashboard/Machine/Interfaces.antt =====
-- Which interfaces the statistics show, and of what.
use pispot.Base.{
  ℕ, ◌≡◌, refl, ap, ◌∙◌, Bool, not, ◌&&◌, none, some, List, [], ◌∷◌, map, if◌then◌else◌, Bool-cases,
  inl, inr,
}
use pispot.Dashboard.Config.{Config}
use pispot.Dashboard.Machine.{Machine, Paths, netstats_reading, sampled, new_server}
use pispot.Go.Bytes.{Bytes, is_empty}
use pispot.Go.Map.{lookup}
use pispot.Netstats
use pispot.Netstats.{filter_empty}
use pispot.Netstats.History.{member, member-filter_empty, shown, run-shown}
use pispot.Stats.{Build, interface_json}
use pispot.Stats.Interfaces.{published, lookup-interfaces_from}
use pispot.Stats.Request.{Visit, Setups, stats, stats_interfaces}
use pispot.Sysinfo.Collector as SystemCollector

-- The name of an interface that the configuration sets.
pub configured : Config → Bytes → Bool
configured cfg name =
    not (is_empty name) && member name (cfg.hotspot_if ∷ cfg.wan_if ∷ cfg.admin_if ∷ [])

-- What netstats reads of the machine at a row of times.
pub readings : Paths → Config → List (ℕ × Machine) → List Netstats.Reading
readings paths cfg = map (λ (at : ℕ × Machine). netstats_reading paths cfg at.1 at.0)

published-sampled :
    {F : Type 0} (cfg : Config) (name : Bytes) (v : Netstats.InterfaceStats F)
    → published (if member name (sampled cfg) then some v else none)
      ≡ (if configured cfg name then some (interface_json v) else none)
unfolding sampled configured published
published-sampled cfg name v =
    rw (member-filter_empty name (cfg.hotspot_if ∷ cfg.wan_if ∷ cfg.admin_if ∷ []))
      (elim (Bool-cases
        (not (is_empty name) && member name (cfg.hotspot_if ∷ cfg.wan_if ∷ cfg.admin_if ∷ []))) [
          | inl known ↦ rw known refl
          | inr unknown ↦ rw unknown refl
        ])

-- Behind every row of ticks on the machine: the section interfaces of the statistics has an entry for the
-- interfaces that the configuration sets and for no other, with the counters and the state that the files
-- of the machine gave last, and with rates of the last two readings.
pub stats-configured :
    {F : Type 0} (setups : Setups F) (paths : Paths) (cfg : Config) (build : Build) (now began : ℕ)
    (row : List (ℕ × Machine)) (sys : SystemCollector.Loop F) (v : Visit) (name : Bytes)
    → lookup name
        (stats setups v (
          new_server setups cfg build now
            (Netstats.run setups.floats (sampled cfg) began (readings paths cfg row))
            sys)).0.interfaces
      ≡ (if configured cfg name
          then some (interface_json (shown setups.floats (readings paths cfg row) name))
          else none)
unfolding new_server
stats-configured setups paths cfg build now began row sys v name =
    let rs = readings paths cfg row in
    let ns = Netstats.run setups.floats (sampled cfg) began rs in
    ap (lookup name) (stats_interfaces setups v (new_server setups cfg build now ns sys))
    ∙ lookup-interfaces_from name ns.interfaces
    ∙ ap published (run-shown setups.floats (sampled cfg) began rs name)
    ∙ published-sampled cfg name (shown setups.floats rs name)
