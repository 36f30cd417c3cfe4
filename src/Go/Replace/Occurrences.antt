-- ===== src/Go/Replace/Occurrences.antt =====
-- What bytes.ReplaceAll comes to.
use pispot.Base.{
  ℕ, zero, suc, ◌-◌, ◌≤◌, ◌≡◌, refl, sym, ap, subst, ◌∙◌, ◌⊎◌, inl, inr, true, false, [], ◌∷◌, ◌++◌,
  append_assoc, length, length-append, ltb, arith, Bool-cases,
}
use pispot.Go.Bytes.{Bytes, has_prefix, drop, last_byte, drop_last, contains}
use pispot.Go.Replace.{
  replace_from, replace_all, Replaced, kept, replaced, has_prefix-append, has_prefix-split,
  has_prefix_refl, has_prefix-short,
}

drop_last-split : (c : ℕ) (s : Bytes) → c ∷ s ≡ drop_last (c ∷ s) ++ last_byte (c ∷ s) ∷ []
unfolding drop_last last_byte
drop_last-split c [] = refl
drop_last-split c (d ∷ s) = λ i. c ∷ drop_last-split d s i

length-drop_last : (c : ℕ) (s : Bytes) → length (drop_last (c ∷ s)) ≡ length s
unfolding drop_last
length-drop_last c [] = refl
length-drop_last c (d ∷ s) = omega (arith, length-drop_last d s)

has_prefix-longer : (s t p : Bytes) → length p ≤ length s → has_prefix (s ++ t) p ≡ has_prefix s p
unfolding has_prefix
has_prefix-longer s t [] h = refl
has_prefix-longer [] t (p ∷ ps) h = absurd (omega arith)
has_prefix-longer (c ∷ s) t (p ∷ ps) h = ground (arith, has_prefix-longer s t ps)

-- A text that is replaced, of one byte at least.
module _ (o : ℕ) (os new : Bytes) where
  abbrev old : Bytes
  old = o ∷ os

  -- An occurrence behind `a` needs the last byte of `old`.
  contains-at : (a s : Bytes) → a ++ (old ++ s) ≡ (a ++ drop_last old) ++ last_byte old ∷ s
  contains-at a s =
      ap (λ l. a ++ (l ++ s)) (drop_last-split o os)
      ∙ ap (λ l. a ++ l) (append_assoc (drop_last old) (last_byte old ∷ []) s)
      ∙ sym (append_assoc a (drop_last old) (last_byte old ∷ s))

  replace_all-kept : (s : Bytes) → contains s old ≡ false → replace_all old new s ≡ s
  unfolding replace_all replace_from contains
  replace_all-kept [] h = refl
  replace_all-kept (c ∷ s) h = ground (arith, replace_all-kept s)

  replace_from-skip :
      (u s : Bytes) → replace_from old new (length u) (u ++ s) ≡ replace_all old new s
  unfolding replace_from replace_all
  replace_from-skip [] s = refl
  replace_from-skip (c ∷ u) s = replace_from-skip u s

  replace_all-here : (s : Bytes) → replace_all old new (old ++ s) ≡ new ++ replace_all old new s
  unfolding replace_all replace_from
  replace_all-here s =
      let one : suc (length os) - 1 ≡ length os = omega arith in
      rw (has_prefix_refl old s) (
        ap (λ n. new ++ replace_from old new n (os ++ s)) one
        ∙ ap (λ t. new ++ t) (replace_from-skip os s))

  replace_all-first :
      (a s : Bytes)
      → contains (a ++ drop_last old) old ≡ false
      → replace_all old new (a ++ (old ++ s)) ≡ a ++ (new ++ replace_all old new s)
  unfolding replace_all replace_from contains
  replace_all-first [] s h = replace_all-here s
  replace_all-first (c ∷ a) s h =
      let long : length old ≤ length (c ∷ a ++ drop_last old) =
        omega (arith, length-append a (drop_last old), length-drop_last o os) in
      let here : has_prefix (c ∷ a ++ drop_last old) old ≡ false = ground arith in
      let later : contains (a ++ drop_last old) old ≡ false = ground arith in
      let absent : has_prefix (c ∷ a ++ (old ++ s)) old ≡ false =
        ap (λ l. has_prefix (c ∷ l) old) (contains-at a s)
        ∙ has_prefix-longer (c ∷ a ++ drop_last old) (last_byte old ∷ s) old long
        ∙ here in
      rw absent (ap (λ l. c ∷ l) (replace_all-first a s later))

  contains-short : (s : Bytes) → ltb (length s) (length old) ≡ true → contains s old ≡ false
  unfolding contains
  contains-short [] h = refl
  contains-short (c ∷ s) h = rw (has_prefix-short (c ∷ s) old h) (contains-short s (ground arith))

  -- No occurrence begins at `c`, nor in front of the end of `old`.
  not_before :
      (c : ℕ) (s a t : Bytes)
      → s ≡ a ++ (old ++ t)
      → has_prefix (c ∷ s) old ≡ false
      → has_prefix (c ∷ a ++ drop_last old) old ≡ false
  not_before c s a t e absent = elim (Bool-cases (has_prefix (c ∷ a ++ drop_last old) old)) [
    | inr absent' ↦ absent'
    | inl here ↦
        let there : has_prefix (c ∷ s) old ≡ true =
          ap (λ l. has_prefix (c ∷ l) old) (e ∙ contains-at a t)
          ∙ has_prefix-append (c ∷ a ++ drop_last old) (last_byte old ∷ t) old here in
        absurd (let no_bool = sym there ∙ absent in cc)
  ]

  -- Where the first occurrence is.
  first_occurrence :
      (s : Bytes)
      → (contains s old ≡ false)
        ⊎ ((a : Bytes) × (t : Bytes) × (s ≡ a ++ (old ++ t))
            × (contains (a ++ drop_last old) old ≡ false))
  unfolding contains
  first_occurrence [] = inl refl
  first_occurrence (c ∷ s) = elim (Bool-cases (has_prefix (c ∷ s) old)) [
    | inl here ↦ inr (
      [],
      drop (length old) (c ∷ s),
      has_prefix-split (c ∷ s) old here,
      contains-short (drop_last old) (ground (arith, length-drop_last o os)),
    )
    | inr absent ↦ elim (first_occurrence s) [
      | inl nowhere ↦ inl (rw absent nowhere)
      | inr (a, t, e, before) ↦
          inr (c ∷ a, t, ap (λ l. c ∷ l) e, rw (not_before c s a t e absent) before)
    ]
  ]

  shorter : (n : ℕ) (s a t : Bytes) → s ≡ a ++ (old ++ t) → length s ≤ suc n → length t ≤ n
  shorter n s a t e h =
      omega (arith, ap (λ l. length l) e, length-append a (old ++ t), length-append os t)

  Replaced-up_to : (n : ℕ) (s : Bytes) → length s ≤ n → Replaced old new s (replace_all old new s)
  unfolding replace_all replace_from contains
  Replaced-up_to zero [] h = kept [] refl
  Replaced-up_to zero (c ∷ s) h = absurd (omega arith)
  Replaced-up_to (suc n) s h = elim (first_occurrence s) [
    | inl nowhere ↦
        subst (λ t. Replaced old new s t) (sym (replace_all-kept s nowhere)) (kept s nowhere)
    | inr (a, t, e, before) ↦
        subst (λ u. Replaced old new u (replace_all old new u)) (sym e)
          (subst (λ u. Replaced old new (a ++ (old ++ t)) u) (sym (replace_all-first a t before))
            (replaced a t (replace_all old new t) before
              (Replaced-up_to n t (shorter n s a t e h))))
  ]

  -- Every text is replaced as the relation says, whatever occurrences overlap.
  pub replace_all-Replaced : (s : Bytes) → Replaced old new s (replace_all old new s)
  replace_all-Replaced s = Replaced-up_to (length s) s (omega arith)
