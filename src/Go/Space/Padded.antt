-- ===== src/Go/Space/Padded.antt =====
-- strings.TrimSpace on a text with ASCII white space around it.
use pispot.Base.{
  ℕ, ◌≡◌, refl, sym, ap, ◌∙◌, Bool, true, false, ◌&&◌, [], ◌∷◌, ◌++◌, All, append_assoc, append-nil,
  arith,
}
use pispot.Go.Bytes.{Bytes, is_empty, last_byte}
use pispot.Go.Space.{is_ascii_space, is_solid, trim_space, trim_space-space, trim_space-space_back}
use pispot.Go.Space.Words.{trim_space-ends, last_byte-cons}

abbrev pub IsPad : Bytes → Type 0
IsPad = All (λ c. is_ascii_space c ≡ true)

-- A text that begins and ends with visible ASCII, whatever is between.
unfoldable pub is_trimmed : Bytes → Bool
is_trimmed [] = false
is_trimmed (c ∷ s) = is_solid c && is_solid (last_byte (c ∷ s))

trim_space-behind :
    (c : ℕ) (s pad : Bytes)
    → is_solid c ≡ true
    → IsPad pad
    → trim_space ((c ∷ s) ++ pad) ≡ trim_space (c ∷ s)
trim_space-behind c s [] hc h = ap trim_space (append-nil (c ∷ s))
trim_space-behind c s (d ∷ pad) hc (p, h) =
    ap trim_space (sym (append_assoc (c ∷ s) (d ∷ []) pad))
    ∙ trim_space-behind c (s ++ d ∷ []) pad hc h
    ∙ trim_space-space_back c s d hc p

trim_space-front : (pad s : Bytes) → IsPad pad → trim_space (pad ++ s) ≡ trim_space s
trim_space-front [] s h = refl
trim_space-front (c ∷ pad) s (p, h) = trim_space-space c (pad ++ s) p ∙ trim_space-front pad s h

-- The text without the white space around it.
pub trim_space-padded :
    (lead w trail : Bytes)
    → IsPad lead
    → is_trimmed w ≡ true
    → IsPad trail
    → trim_space (lead ++ (w ++ trail)) ≡ w
unfolding is_trimmed
trim_space-padded lead [] trail hl hw ht = cc
trim_space-padded lead (c ∷ s) trail hl hw ht =
    let first : is_solid c ≡ true = ground arith in
    let last : is_solid (last_byte (c ∷ s)) ≡ true = ground arith in
    trim_space-front lead ((c ∷ s) ++ trail) hl
    ∙ trim_space-behind c s trail first ht
    ∙ trim_space-ends c s first last

pub trim_space-pad : (pad : Bytes) → IsPad pad → trim_space pad ≡ []
trim_space-pad pad h =
    ap trim_space (sym (append-nil pad)) ∙ trim_space-front pad [] h ∙ unfold trim_space in refl

is_empty-behind : (s t : Bytes) → is_empty t ≡ false → is_empty (s ++ t) ≡ false
is_empty-behind [] t h = h
is_empty-behind (c ∷ s) t h = refl

last_byte-behind : (s t : Bytes) → is_empty t ≡ false → last_byte (s ++ t) ≡ last_byte t
last_byte-behind [] t h = refl
last_byte-behind (c ∷ s) t h =
    last_byte-cons c (s ++ t) (is_empty-behind s t h) ∙ last_byte-behind s t h

-- What stands between two such texts does not count.
pub is_trimmed-between :
    (s between t : Bytes)
    → is_trimmed s ≡ true
    → is_trimmed t ≡ true
    → is_trimmed (s ++ (between ++ t)) ≡ true
unfolding is_trimmed
is_trimmed-between [] between t hs ht = cc
is_trimmed-between (c ∷ s) between [] hs ht = cc
is_trimmed-between (c ∷ s) between (d ∷ t) hs ht =
    let same : last_byte ((c ∷ s) ++ (between ++ (d ∷ t))) ≡ last_byte (d ∷ t) =
      last_byte-behind (c ∷ s) (between ++ (d ∷ t)) (is_empty-behind between (d ∷ t) refl)
      ∙ last_byte-behind between (d ∷ t) refl in
    rw same (ground arith)

pub is_trimmed-filled : (s : Bytes) → is_trimmed s ≡ true → is_empty s ≡ false
unfolding is_trimmed
is_trimmed-filled [] h = cc
is_trimmed-filled (c ∷ s) h = refl
