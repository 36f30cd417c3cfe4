-- ===== src/Schedule/Alone.antt =====
-- A goroutine that nothing interrupts.
use pispot.Base.{ℕ, zero, suc, ◌≡◌, refl, subst, List, [], ◌∷◌}
use pispot.Schedule.{System, update-here, pick, interleave}

-- `n` turns of one goroutine.
abbrev pub turns_of : ℕ → ℕ → List ℕ
turns_of i zero = []
turns_of i (suc n) = i ∷ turns_of i n

-- So many steps of a goroutine that runs alone.
unfoldable pub steps : {S P : Type 0} → (S → P → S × P) → ℕ → S × P → S × P
steps advance zero s = s
steps advance (suc n) (d, p) = steps advance n (advance d p)

-- A system that shares, and whose goroutine `i` stands, as for a lone goroutine.
unfoldable pub Follows : {S P : Type 0} → ℕ → System S P → S × P → Type 0
Follows i s (d, p) = (s.shared ≡ d) × (s.pc i ≡ p)

pub interleave-steps :
    {S P : Type 0} (advance : ℕ → S → P → S × P) (i n : ℕ) (s : System S P)
    → Follows i (interleave advance (turns_of i n) s) (steps (advance i) n (s.shared, s.pc i))
unfolding interleave pick steps
interleave-steps advance i zero s = unfold Follows in (refl, refl)
interleave-steps advance i (suc n) s =
    let rest = interleave-steps advance i n (pick advance i s) in
    let (d, p) = advance i s.shared (s.pc i) in
    subst
      (λ q.
        Follows i (interleave advance (turns_of i n) (pick advance i s))
          (steps (advance i) n (d, q)))
      (update-here s.pc i p) rest
