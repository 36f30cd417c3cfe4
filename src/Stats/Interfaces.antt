-- ===== src/Stats/Interfaces.antt =====
-- The section interfaces of the statistics, by name.
use pispot.Base.{◌≡◌, refl, Option, none, some, [], ◌∷◌, Bool-cases, inl, inr}
use pispot.Go.Bytes.{Bytes, equal}
use pispot.Go.Map.{Map, lookup}
use pispot.Netstats.{InterfaceStats}
use pispot.Stats.{Interface, interface_json, interfaces_from}

unfoldable pub published : {F : Type 0} → Option (InterfaceStats F) → Option (Interface F)
published none = none
published (some v) = some (interface_json v)

pub lookup-interfaces_from :
    {F : Type 0} (name : Bytes) (items : Map (InterfaceStats F))
    → lookup name (interfaces_from (some items)) ≡ published (lookup name items)
unfolding lookup interfaces_from published
lookup-interfaces_from name [] = refl
lookup-interfaces_from name ((first, v) ∷ items) = elim (Bool-cases (equal first name)) [
  | inl same ↦ rw same refl
  | inr other ↦ rw other (lookup-interfaces_from name items)
]
