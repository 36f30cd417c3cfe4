-- ===== src/Schedule.antt =====
-- Goroutines that run at the same time on something that they share, as net/http and Serve of
-- host/internal/socket/server.go start one for each connection: a step of one of them at a time, in the
-- order of a schedule.
pub mod Progress
pub mod Alone
use pispot.Base.{ℕ, ◌==◌, ◌≡◌, refl, List, [], ◌∷◌, if◌then◌else◌, arith}

unfoldable pub update {ℓ} : {A : Type ℓ} → (ℕ → A) → ℕ → A → ℕ → A
update f i a j = if j == i then a else f j

pub update-here : {A : Type 0} (f : ℕ → A) (i : ℕ) (a : A) → update f i a i ≡ a
unfolding update
update-here f i a = ground arith

-- What is shared, and where each of the goroutines stands.
pub record System (S P : Type 0) : Type 0 where
  pub shared : S
  pub pc : ℕ → P

module _ {S P : Type 0} (advance : ℕ → S → P → S × P) where
  -- A step of one.
  unfoldable pub pick : ℕ → System S P → System S P
  pick i s = let (d, p) = advance i s.shared (s.pc i) in record { shared = d; pc = update s.pc i p }

  unfoldable pub interleave : List ℕ → System S P → System S P
  interleave [] s = s
  interleave (i ∷ is) s = interleave is (pick i s)

  -- What every step keeps, the schedule keeps.
  pub interleave-keeps :
      (I : System S P → Type 0)
      → ((i : ℕ) (s : System S P) → I s → I (pick i s))
      → (schedule : List ℕ) (s : System S P) → I s
      → I (interleave schedule s)
  unfolding interleave
  interleave-keeps I kept [] s h = h
  interleave-keeps I kept (i ∷ is) s h = interleave-keeps I kept is (pick i s) (kept i s h)
