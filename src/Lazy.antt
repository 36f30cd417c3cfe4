-- ===== src/Lazy.antt =====
-- What the collectors of dashboard/internal/admin, hotspot and wan have in common: each asks the host
-- again, under its lock, once what it keeps is as old as `ttl`.
pub mod Rate
use pispot.Base.{ℕ, ◌+◌, ◌≡◌, Bool, true, Option, none, some, List, [], ◌∷◌, if◌then◌else◌, leb}

-- One call of `refresh`: the instant under the lock, the instant that it stores, and what it met.
pub record Tick (P : Type 0) : Type 0 where
  pub looked_at : ℕ
  pub now : ℕ
  pub probe : P

-- `clock().Sub(lastAt) >= ttl`, with none for the zero time, which is further back than any age.
pub due : ℕ → Option ℕ → ℕ → Bool
due ttl none now = true
due ttl (some last) now = leb (last + ttl) now

-- A collector with the states `C`, where the host's answers to a refresh are `P`. `probed` is `refresh`
-- behind its second look at the clock, and `shown_at` the instant of the snapshot. `snapshot` is
-- asked at an instant, by itself: no other call comes between its look at the clock and that of
-- `refresh`.
pub record Lazy (C P : Type 0) : Type 0 where
  pub ttl : ℕ
  pub last_at : C → Option ℕ
  pub shown_at : C → ℕ
  pub start : C
  pub probed : Tick P → C → C
  pub refresh : Tick P → C → C
  pub snapshot : ℕ → Tick P → C → C
  pub start-last_at : last_at start ≡ none
  pub probed-last_at : (t : Tick P) (c : C) → last_at (probed t c) ≡ some t.now
  pub probed-shown_at : (t : Tick P) (c : C) → shown_at (probed t c) ≡ t.now
  pub refresh_lem :
      (t : Tick P) (c : C)
      → refresh t c ≡ (if due ttl (last_at c) t.looked_at then probed t c else c)
  pub snapshot_lem :
      (asked : ℕ) (t : Tick P) (c : C)
      → snapshot asked t c ≡ (if due ttl (last_at c) asked then refresh t c else c)

module _ {C P : Type 0} (l : Lazy C P) where
  -- The collector behind calls of `refresh`, the last of them first. `refresh` holds the lock, so that
  -- any interleaving of calls of `Snapshot` is such a row.
  pub collect : List (Tick P) → C
  collect [] = l.start
  collect (t ∷ past) = l.refresh t (collect past)

  -- The calls that found the snapshot stale.
  pub effective : List (Tick P) → List (Tick P)
  effective [] = []
  effective (t ∷ past) =
      let rest = effective past in
      if due l.ttl (l.last_at (collect past)) t.looked_at then t ∷ rest else rest

-- The instant of the last of the refreshes.
abbrev pub last_now : {P : Type 0} → List (Tick P) → Option ℕ
last_now [] = none
last_now (t ∷ past) = some t.now

-- Each looked at the clock at least `ttl` behind the instant that the one before it stored.
pub Spaced : {P : Type 0} → ℕ → List (Tick P) → Type 0
Spaced ttl [] = Unit
Spaced ttl (t ∷ past) = (due ttl (last_now past) t.looked_at ≡ true) × Spaced ttl past
