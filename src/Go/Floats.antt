-- ===== src/Go/Floats.antt =====
-- float64, as far as the collectors compute with it: a parameter of the model.
use pispot.Base.{ℕ, Bool}
use pispot.Go.Bytes.{Bytes}
use pispot.Go.Numbers.{ℤ}
use pispot.Result.{Result}

pub record Floats (F : Type 0) : Type 0 where
  -- 0
  pub zero : F
  -- strconv.ParseFloat(s, 64)
  pub parse_float : Bytes → Result F
  -- int(f)
  pub to_int : F → ℤ
  -- float64(n) / 1000
  pub thousandth : ℤ → F
  -- f >= 80.0
  pub is_hot : F → Bool
  -- float64(bytes) * 8 / 1_000_000 / elapsed.Seconds(), of nanoseconds
  pub megabits_per_second : ℕ → ℕ → F
