-- ===== src/Go/Unicode.antt =====
-- The parts of Go's generated Unicode tables that the program reaches. They are parameters: the
-- model asks nothing of them.
use pispot.Base.{ℕ, Bool}

pub record Unicode : Type 0 where
  -- strconv.IsPrint above U+00FF
  pub is_print : ℕ → Bool
  -- unicode.ToLower above U+007F
  pub to_lower : ℕ → ℕ
