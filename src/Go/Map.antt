-- ===== src/Go/Map.antt =====
-- Go maps with string keys, as association lists with one entry for a key. The program reads no map
-- in the order of its entries.
use pispot.Base.{◌≡◌, refl, Option, none, some, List, [], ◌∷◌, arith, if◌then◌else◌}
use pispot.Go.Bytes.{Bytes, equal, equal_iff}

abbrev pub Map {ℓ} : Type ℓ → Type ℓ
Map V = List (Bytes × V)

module _ {ℓ} {V : Type ℓ} where
  -- `item, ok := items[key]`
  unfoldable pub lookup : Bytes → Map V → Option V
  lookup key [] = none
  lookup key ((first, item) ∷ items) = if equal first key then some item else lookup key items

  -- `items[key] = item`
  unfoldable pub insert : Bytes → V → Map V → Map V
  insert key item [] = (key, item) ∷ []
  insert key item ((first, old) ∷ items) =
      if equal first key then (key, item) ∷ items else (first, old) ∷ insert key item items

  pub lookup-insert :
      (key other : Bytes) (item : V) (items : Map V)
      → lookup other (insert key item items)
        ≡ (if equal key other then some item else lookup other items)
  unfolding lookup insert
  lookup-insert key other item [] = refl
  lookup-insert key other item ((first, old) ∷ items) =
      let ih = lookup-insert key other item items in
      ground (arith, ih, equal_iff first other, equal_iff first key, equal_iff key other)
