-- ===== src/Wifi/Store/Race/Alone.antt =====
-- A request that nothing interleaves is an operation of the store.
use pispot.Base.{ℕ, zero, suc, ◌≡◌, refl, ap, ◌∙◌, Option, none, some, [], ◌++◌, append-nil, length}
use pispot.Go.Bytes.{Bytes, lit, drop}
use pispot.Result.{Result, ok, err}
use pispot.Schedule.{update, update-here}
use pispot.Schedule.Alone.{turns_of, steps, Follows, interleave-steps}
use pispot.Wifi.Store.Race.{
  Disk, Change, Pc, asked, reading, opening, answered, Texts, System, overwrite, refusal, new_text,
  to_write, open_config, begin, advance, run,
}
use pispot.Wifi.Store.{Files, read_file, rename_temp, write_text, after_read}
use pispot.Wifi.Store.Race.Outcome.{working, stored, outcome, accepted, stored-accepted}

held : (ℕ → Bytes) → Option ℕ → Option Bytes
held bodies none = none
held bodies (some i) = some (bodies i)

-- The two names, with what their files hold.
unfoldable pub files : Disk → Files
unfolding held
files d = record { config = held d.bodies d.config; temp = held d.bodies d.temp }

-- An answer and the files behind it.
Gives : Result (Unit {0}) × Files → Disk × Pc → Type 0
Gives (r, fs) (d, p) = (p ≡ answered r) × (files d ≡ fs)

steps-answered :
    (texts : Texts) (change : Change) (n : ℕ) (d : Disk) (r : Result (Unit {0}))
    → steps (advance texts change) n (d, answered r) ≡ (d, answered r)
unfolding steps advance
steps-answered texts change zero d r = refl
steps-answered texts change (suc n) d r = steps-answered texts change n d r

drop-empty : (n : ℕ) → drop n [] ≡ []
unfolding drop
drop-empty zero = refl
drop-empty (suc n) = refl

pub overwrite-empty : (text : Bytes) → overwrite text [] ≡ text
unfolding overwrite
overwrite-empty text = rw (drop-empty (length text)) (append-nil text)

-- What a file holds that was truncated and then written.
written :
    (bodies : ℕ → Bytes) (i : ℕ) (text : Bytes)
    → update (update bodies i []) i (overwrite text (update bodies i [] i)) i ≡ text
written bodies i text =
    update-here (update bodies i []) i (overwrite text (update bodies i [] i))
    ∙ ap (overwrite text) (update-here bodies i [])
    ∙ overwrite-empty text

-- From the open of os.WriteFile on, with a temporary file or without one.
write_alone :
    (texts : Texts) (change : Change) (text : Bytes) (temp : Option ℕ) (d : Disk)
    → d.temp ≡ temp
    → Gives
        (write_text (working texts) text (files d))
        (steps (advance texts change) 4 (d, opening text))
unfolding steps advance write_text rename_temp Gives files held
write_alone texts change text none d h =
    rw h (refl, λ i. record { config = some (written d.bodies d.next text i); temp = none })
write_alone texts change text (some j) d h =
    rw h (refl, λ i. record { config = some (written d.bodies j text i); temp = none })

to_write_alone :
    (texts : Texts) (change : Change) (r : Result Bytes) (d : Disk)
    → Gives (outcome texts (files d) r) (steps (advance texts change) 4 (d, to_write r))
unfolding to_write outcome Gives
to_write_alone texts change (err e) d = rw (steps-answered texts change 4 d (err e)) (refl, refl)
to_write_alone texts change (ok text) d = write_alone texts change text d.temp d refl

steps-reading :
    (texts : Texts) (change : Change) (i : ℕ) (d : Disk)
    → steps (advance texts change) 5 (d, reading i)
      ≡ steps (advance texts change) 4 (d, to_write (new_text texts.unicode change (d.bodies i)))
unfolding steps advance
steps-reading texts change i d = refl

read_file-none :
    (texts : Texts) (d : Disk)
    → d.config ≡ none
    → read_file (working texts) (files d) ≡ err texts.no_config
unfolding read_file files held
read_file-none texts d h = rw h refl

read_file-some :
    (texts : Texts) (d : Disk) (i : ℕ)
    → d.config ≡ some i
    → read_file (working texts) (files d) ≡ ok (d.bodies i)
unfolding read_file files held
read_file-some texts d i h = rw h refl

read_alone :
    (texts : Texts) (change : Change) (config : Option ℕ) (d : Disk)
    → d.config ≡ config
    → Gives
        (accepted texts change none (files d))
        (steps (advance texts change) 5 (d, open_config texts config))
unfolding accepted open_config after_read
read_alone texts change none d h =
    rw
      (
        steps-answered texts change 5 d (err (lit "read config: " ++ texts.no_config)),
        read_file-none texts d h,
      )
      (unfold Gives in (refl, refl))
read_alone texts change (some i) d h =
    rw (steps-reading texts change i d, read_file-some texts d i h)
      (to_write_alone texts change (new_text texts.unicode change (d.bodies i)) d)

begin_alone :
    (texts : Texts) (change : Change) (refused : Option Bytes) (d : Disk)
    → Gives
        (accepted texts change refused (files d))
        (steps (advance texts change) 5 (d, begin texts refused d.config))
unfolding accepted begin Gives
begin_alone texts change (some e) d = rw (steps-answered texts change 5 d (err e)) (refl, refl)
begin_alone texts change none d = read_alone texts change d.config d refl

alone :
    (texts : Texts) (change : Change) (d : Disk)
    → Gives (stored texts change (files d)) (steps (advance texts change) 6 (d, asked))
unfolding steps advance
alone texts change d =
    rw (stored-accepted texts change (files d)) (begin_alone texts change (refusal change) d)

-- In any state of the files, a request whose six steps no other interrupts is answered, and leaves the
-- files, as the operation of the store that it asks for.
pub run-stored :
    (texts : Texts) (changes : ℕ → Change) (i : ℕ) (s : System)
    → s.pc i ≡ asked
    → ((run texts changes (turns_of i 6) s).pc i
        ≡ answered (stored texts (changes i) (files s.shared)).0)
      × (files (run texts changes (turns_of i 6) s).shared
          ≡ (stored texts (changes i) (files s.shared)).1)
unfolding Gives Follows
run-stored texts changes i s h =
    let (disk, pc) = interleave-steps (λ j. advance texts (changes j)) i 6 s in
    let (answer, left) = alone texts (changes i) s.shared in
    (
      pc ∙ ap (λ p. (steps (advance texts (changes i)) 6 (s.shared, p)).1) h ∙ answer,
      ap files disk
          ∙ ap (λ p. files (steps (advance texts (changes i)) 6 (s.shared, p)).0) h
          ∙ left,
    )
