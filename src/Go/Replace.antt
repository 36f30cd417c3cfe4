-- ===== src/Go/Replace.antt =====
-- strings.HasSuffix, and bytes.ReplaceAll of text that is not empty.
pub mod Occurrences
use pispot.Base.{
  ℕ, zero, suc, ◌+◌, ◌-◌, ◌≤◌, ◌≡◌, refl, sym, ap, ◌∙◌, ◌⊎◌, inl, inr, Bool, true, false, ◌&&◌,
  ◌||◌, not, List, [], ◌∷◌, ◌++◌, append_assoc, append-nil, length, length-append, ltb, leb, ◌==◌,
  if◌then◌else◌, arith, Bool-cases,
}
use pispot.Go.Bytes.{Bytes, is_empty, equal, has_prefix, drop, drop_last, contains}

-- strings.HasSuffix
pub has_suffix : Bytes → Bytes → Bool
has_suffix s p = leb (length p) (length s) && equal (drop (length s - length p) s) p

-- The text behind `n` more bytes of an occurrence.
pub replace_from : Bytes → Bytes → ℕ → Bytes → Bytes
replace_from old new n [] = []
replace_from old new (suc n) (c ∷ s) = replace_from old new n s
replace_from old new zero (c ∷ s) =
    let behind = replace_from old new (length old - 1) s in
    let rest = replace_from old new zero s in
    if has_prefix (c ∷ s) old then new ++ behind else c ∷ rest

-- bytes.ReplaceAll: the occurrences of `old` from the left, none of which overlaps the one before.
pub replace_all : Bytes → Bytes → Bytes → Bytes
replace_all old new = replace_from old new zero

-- What replacing means: no occurrence is left, or the first one, which ends where `a ++ old` ends, is
-- replaced, and the occurrences behind it are.
pub data Replaced (old new : Bytes) : Bytes → Bytes → Type 0 where
  kept : (s : Bytes) → contains s old ≡ false → Replaced old new s s
  replaced :
      (a s t : Bytes)
      → contains (a ++ drop_last old) old ≡ false
      → Replaced old new s t
      → Replaced old new (a ++ (old ++ s)) (a ++ (new ++ t))

-- A prefix of a longer text.
pub has_prefix-append : (s t p : Bytes) → has_prefix s p ≡ true → has_prefix (s ++ t) p ≡ true
unfolding has_prefix
has_prefix-append s t [] h = refl
has_prefix-append [] t (p ∷ ps) h = absurd cc
has_prefix-append (c ∷ s) t (p ∷ ps) h = ground (arith, has_prefix-append s t ps)

pub has_prefix-split : (s p : Bytes) → has_prefix s p ≡ true → s ≡ p ++ drop (length p) s
unfolding has_prefix drop
has_prefix-split s [] h = refl
has_prefix-split [] (p ∷ ps) h = absurd cc
has_prefix-split (c ∷ s) (p ∷ ps) h =
    let same : c ≡ p = ground arith in
    let rest : has_prefix s ps ≡ true = ground arith in λ i. same i ∷ has_prefix-split s ps rest i

pub has_prefix_refl : (p s : Bytes) → has_prefix (p ++ s) p ≡ true
unfolding has_prefix
has_prefix_refl [] s = refl
has_prefix_refl (c ∷ p) s = ground (arith, has_prefix_refl p s)

pub has_prefix-short : (s p : Bytes) → ltb (length s) (length p) ≡ true → has_prefix s p ≡ false
unfolding has_prefix
has_prefix-short s [] h = absurd (ground arith)
has_prefix-short [] (p ∷ ps) h = refl
has_prefix-short (c ∷ s) (p ∷ ps) h = ground (arith, has_prefix-short s ps)
