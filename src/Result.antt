-- ===== src/Result.antt =====
-- Go's `(value, error)` pairs where the value is used only without an error. An error is its text:
-- the program reads errors by `err.Error()`, and by errors.Is where a module says so.
use pispot.Base.{◌≡◌, refl, ◌++◌, ◌⊎◌, inl, inr}
use pispot.Go.Bytes.{Bytes}

pub data Result {ℓ} (A : Type ℓ) : Type ℓ where
  ok : A → Result A
  err : Bytes → Result A

-- fmt.Errorf("…: %w", err)
abbrev pub wrap {ℓ} : {A : Type ℓ} → Bytes → Result A → Result A
wrap prefix (ok a) = ok a
wrap prefix (err e) = err (prefix ++ e)

pub Result-cases {ℓ} :
    {A : Type ℓ} (r : Result A) → ((a : A) × (r ≡ ok a)) ⊎ ((e : Bytes) × (r ≡ err e))
Result-cases (ok a) = inl (a, refl)
Result-cases (err e) = inr (e, refl)
