-- ===== src/Go/Space/Words.antt =====
-- Lines of words that single spaces part: strings.Fields finds the words, and strings.TrimSpace leaves
-- such a line alone.
use pispot.Base.{
  ℕ, ◌≡◌, refl, sym, ap, ◌∙◌, Bool, true, false, ◌&&◌, List, [], ◌∷◌, ◌++◌, All, All-append,
  append_assoc, append-nil, arith, ◌<◌, ◌==◌, length,
}
use pispot.Go.Bytes.{Bytes, is_empty, last_byte, drop_last, last_byte-append}
use pispot.Go.Lines.{IsLine, IsLine-intro, max_scan_token_size}
use pispot.Go.Space.{
  is_solid, space_length, space_length-is_solid, space_length-space, space_length_back,
  space_length_back-is_solid, trim_front-is_solid, trim_space, trim_space_lem, trim_space-is_solid,
  emit, fields_from, fields,
}

-- Visible ASCII, at least one byte.
pub record IsWord (w : Bytes) : Type 0 where
  pub filled : is_empty w ≡ false
  pub solid : All (λ c. is_solid c ≡ true) w

unfoldable pub join_words : List Bytes → Bytes
join_words [] = []
join_words (w ∷ []) = w
join_words (w ∷ v ∷ ws) = w ++ 32 ∷ join_words (v ∷ ws)

fields_from-solid :
    (cur w rest : Bytes)
    → All (λ c. is_solid c ≡ true) w
    → fields_from 0 cur (w ++ rest) ≡ fields_from 0 (cur ++ w) rest
unfolding fields_from
fields_from-solid cur [] rest h = rw (append-nil cur)
fields_from-solid cur (c ∷ w) rest (p, h) = rw (space_length-is_solid c (w ++ rest) p) (
    fields_from-solid (cur ++ c ∷ []) w rest h
    ∙ ap (λ s. fields_from 0 s rest) (append_assoc cur (c ∷ []) w))

fields_from-space :
    (cur rest : Bytes) → fields_from 0 cur (32 ∷ rest) ≡ emit cur ++ fields_from 0 [] rest
unfolding fields_from
fields_from-space cur rest = rw (space_length-space 32 rest refl) refl

emit-word : (w : Bytes) → is_empty w ≡ false → emit w ≡ w ∷ []
unfolding emit
emit-word [] h = cc
emit-word (c ∷ w) h = refl

fields_from-nil : (cur : Bytes) → fields_from 0 cur [] ≡ emit cur
unfolding fields_from
fields_from-nil cur = refl

fields_from-join_words : (ws : List Bytes) → All IsWord ws → fields_from 0 [] (join_words ws) ≡ ws
unfolding join_words
fields_from-join_words [] h = fields_from-nil [] ∙ unfold emit in refl
fields_from-join_words (w ∷ []) (p, h) =
    ap (fields_from 0 []) (sym (append-nil w))
    ∙ fields_from-solid [] w [] p.solid
    ∙ fields_from-nil w
    ∙ emit-word w p.filled
fields_from-join_words (w ∷ v ∷ ws) (p, h) =
    fields_from-solid [] w (32 ∷ join_words (v ∷ ws)) p.solid
    ∙ fields_from-space w (join_words (v ∷ ws))
    ∙ ap (λ t. t ++ fields_from 0 [] (join_words (v ∷ ws))) (emit-word w p.filled)
    ∙ ap (λ t. w ∷ t) (fields_from-join_words (v ∷ ws) h)

-- strings.Fields takes a line of words apart.
pub fields-join_words : (ws : List Bytes) → All IsWord ws → fields (join_words ws) ≡ ws
unfolding fields
fields-join_words ws h = fields_from-join_words ws h

pub is_empty-join_words :
    (w : Bytes) (ws : List Bytes) → All IsWord (w ∷ ws) → is_empty (join_words (w ∷ ws)) ≡ false
unfolding join_words
is_empty-join_words w [] (p, h) = p.filled
is_empty-join_words [] (v ∷ ws) (p, h) = refl
is_empty-join_words (c ∷ w) (v ∷ ws) (p, h) = refl

last_byte-solid :
    (c : ℕ) (s : Bytes) → All (λ c. is_solid c ≡ true) (c ∷ s) → is_solid (last_byte (c ∷ s)) ≡ true
unfolding last_byte
last_byte-solid c [] (p, h) = p
last_byte-solid c (d ∷ s) (p, h) = last_byte-solid d s h

last_byte-word : (w : Bytes) → IsWord w → is_solid (last_byte w) ≡ true
last_byte-word [] p = absurd (let no = p.filled in cc)
last_byte-word (c ∷ w) p = last_byte-solid c w p.solid

pub last_byte-cons : (c : ℕ) (s : Bytes) → is_empty s ≡ false → last_byte (c ∷ s) ≡ last_byte s
unfolding last_byte
last_byte-cons c [] h = cc
last_byte-cons c (d ∷ s) h = refl

last_byte-join_words :
    (w : Bytes) (ws : List Bytes)
    → All IsWord (w ∷ ws)
    → is_solid (last_byte (join_words (w ∷ ws))) ≡ true
unfolding join_words
last_byte-join_words w [] (p, h) = last_byte-word w p
last_byte-join_words w (v ∷ ws) (p, h) =
    ap is_solid (
      last_byte-append w (join_words (v ∷ ws)) 32
      ∙ last_byte-cons 32 (join_words (v ∷ ws)) (is_empty-join_words v ws h))
    ∙ last_byte-join_words v ws h

drop_last-last_byte : (c : ℕ) (s : Bytes) → c ∷ s ≡ drop_last (c ∷ s) ++ last_byte (c ∷ s) ∷ []
unfolding drop_last last_byte
drop_last-last_byte c [] = refl
drop_last-last_byte c (d ∷ s) = ap (λ t. c ∷ t) (drop_last-last_byte d s)

trim_space-byte : (c : ℕ) → is_solid c ≡ true → trim_space (c ∷ []) ≡ c ∷ []
trim_space-byte c h = rw (
  trim_space_lem (c ∷ []),
  trim_front-is_solid space_length c [] (space_length-is_solid c [] h),
  trim_front-is_solid space_length_back c [] (space_length_back-is_solid c [] h),
)

-- Text that begins and ends with a solid byte.
pub trim_space-ends :
    (c : ℕ) (s : Bytes)
    → is_solid c ≡ true
    → is_solid (last_byte (c ∷ s)) ≡ true
    → trim_space (c ∷ s) ≡ c ∷ s
trim_space-ends c [] first last = trim_space-byte c first
trim_space-ends c (d ∷ s) first last =
    let split = drop_last-last_byte d s in
    let last' = ap is_solid (sym (last_byte-cons c (d ∷ s) refl)) ∙ last in
    ap (λ t. trim_space (c ∷ t)) split
    ∙ trim_space-is_solid c (drop_last (d ∷ s)) (last_byte (d ∷ s)) first last'
    ∙ ap (λ t. c ∷ t) (sym split)

-- strings.TrimSpace leaves a line of words alone.
pub trim_space-join_words :
    (w : Bytes) (ws : List Bytes)
    → All IsWord (w ∷ ws)
    → trim_space (join_words (w ∷ ws)) ≡ join_words (w ∷ ws)
trim_space-join_words [] ws (p, h) = absurd (let no = p.filled in cc)
trim_space-join_words (c ∷ w) [] (p, h) =
    unfold join_words in trim_space-ends c w p.solid.0 (last_byte-solid c w p.solid)
trim_space-join_words (c ∷ w) (v ∷ ws) (p, h) =
    let last = last_byte-join_words (c ∷ w) (v ∷ ws) (p, h) in
    unfold join_words in trim_space-ends c (w ++ 32 ∷ join_words (v ∷ ws)) p.solid.0 last

no_newline-word : (w : Bytes) → All (λ c. is_solid c ≡ true) w → All (λ c. (c == b'\n') ≡ false) w
no_newline-word [] h = tt
no_newline-word (c ∷ w) (p, h) = (ground arith, no_newline-word w h)

no_newline-join_words :
    (ws : List Bytes) → All IsWord ws → All (λ c. (c == b'\n') ≡ false) (join_words ws)
unfolding join_words
no_newline-join_words [] h = tt
no_newline-join_words (w ∷ []) (p, h) = no_newline-word w p.solid
no_newline-join_words (w ∷ v ∷ ws) (p, h) =
    All-append _ w (32 ∷ join_words (v ∷ ws)) (no_newline-word w p.solid)
      (refl, no_newline-join_words (v ∷ ws) h)

-- bufio.Scanner takes a line of words whole, if it is not too long.
pub join_words-IsLine :
    (w : Bytes) (ws : List Bytes)
    → All IsWord (w ∷ ws)
    → length (join_words (w ∷ ws)) < max_scan_token_size
    → IsLine max_scan_token_size (join_words (w ∷ ws))
join_words-IsLine w ws h fits =
    let last = last_byte-join_words w ws h in
    IsLine-intro (join_words (w ∷ ws)) (no_newline-join_words (w ∷ ws) h) fits (ground arith)

-- A test for a word.
unfoldable pub is_word : Bytes → Bool
is_word [] = false
is_word (c ∷ []) = is_solid c
is_word (c ∷ d ∷ w) = is_solid c && is_word (d ∷ w)

pub is_word-IsWord : (w : Bytes) → is_word w ≡ true → IsWord w
unfolding is_word
is_word-IsWord [] h = cc
is_word-IsWord (c ∷ []) h = record { filled = refl; solid = (h, tt) }
is_word-IsWord (c ∷ d ∷ w) h =
    let rest = is_word-IsWord (d ∷ w) (ground arith) in
    record { filled = refl; solid = (ground arith, rest.solid) }
