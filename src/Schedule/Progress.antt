-- ===== src/Schedule/Progress.antt =====
-- How many steps a goroutine takes in a schedule.
use pispot.Base.{ℕ, ◌+◌, List, [], ◌∷◌, ◌==◌, if◌then◌else◌}

-- How often the schedule picks a goroutine.
abbrev pub turns : ℕ → List ℕ → ℕ
turns i [] = 0
turns i (j ∷ js) = (if i == j then 1 else 0) + turns i js
