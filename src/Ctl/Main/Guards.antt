-- ===== src/Ctl/Main/Guards.antt =====
-- What the tool does for whom, and what it never prints.
use pispot.Base.{◌==◌, ◌≡◌, refl, Bool, true, false, List, [], ◌∷◌, ◌++◌, if◌then◌else◌, if_false}
use pispot.Ctl.{World, Process, nl}
use pispot.Ctl.Main.{main, exit_with, as_root, run_wifi}
use pispot.Ctl.Networks.Passwords.{masking, wifi_list-masking}
use pispot.Go.Bytes.{Bytes, lit, equal}
use pispot.Host.{Argv}

-- A process that ran nothing and printed nothing but an error.
pub Refuses : List Argv → Process → Type 0
Refuses ran p = (p.code ≡ 1) × (p.out ≡ []) × (p.ran ≡ ran)

module _ (w : World) (ran : List Argv) (not_root : (w.uid == 0) ≡ false) where
  exit_with-Refuses : (errs : Bytes) → Refuses ran (exit_with errs ran)
  unfolding exit_with Refuses
  exit_with-Refuses errs = (refl, refl, refl)

  as_root-Refuses :
      (name : Bytes) (body : List Argv → Process) → Refuses ran (as_root w name body ran)
  unfolding as_root
  as_root-Refuses name body =
      rw (if_false (body ran) (exit_with (name ++ lit " requires root" ++ nl) ran) not_root)
        (exit_with-Refuses (name ++ lit " requires root" ++ nl))

  Refuses-if :
      (b : Bool) (p q : Process) → Refuses ran p → Refuses ran q → Refuses ran (if b then p else q)
  Refuses-if true p q h k = h
  Refuses-if false p q h k = k

  run_wifi-Refuses : (args : List Bytes) → Refuses ran (run_wifi w args ran)
  unfolding run_wifi
  run_wifi-Refuses [] = exit_with-Refuses _
  run_wifi-Refuses (sub ∷ args) =
      Refuses-if (equal sub (lit "list")) _ _ (as_root-Refuses _ _) (exit_with-Refuses _)

-- Whatever the arguments: for a user other than root the tool runs no command, prints nothing on its
-- standard output, and ends with status 1.
pub main-Refuses :
    (w : World) (args : List Bytes) (ran : List Argv)
    → (w.uid == 0) ≡ false
    → Refuses ran (main w args ran)
unfolding main
main-Refuses w [] ran h = exit_with-Refuses w ran h _
main-Refuses w (cmd ∷ args) ran h =
    Refuses-if w ran h (equal cmd (lit "wan-up")) _ _ (as_root-Refuses w ran h _ _) (
      Refuses-if w ran h (equal cmd (lit "wan-down")) _ _ (as_root-Refuses w ran h _ _) (
        Refuses-if w ran h (equal cmd (lit "status")) _ _ (as_root-Refuses w ran h _ _) (
          Refuses-if w ran h (equal cmd (lit "wifi")) _ _ (run_wifi-Refuses w ran h args) (
            Refuses-if w ran h (equal cmd (lit "logs")) _ _ (as_root-Refuses w ran h _ _)
              (exit_with-Refuses w ran h _)))))

run_wifi-masking :
    (w : World) (args : List Bytes) (ran : List Argv)
    → run_wifi (masking w) args ran ≡ run_wifi w args ran
unfolding run_wifi as_root masking
run_wifi-masking w [] ran = refl
run_wifi-masking w (sub ∷ args) ran = rw (wifi_list-masking w) refl

-- Whatever the daemon answers, `wifi` ends as it would if the answer held no passwords: what it prints
-- does not depend on them.
pub main-masking :
    (w : World) (args : List Bytes) (ran : List Argv)
    → main (masking w) (lit "wifi" ∷ args) ran ≡ main w (lit "wifi" ∷ args) ran
unfolding main equal
main-masking w args ran = run_wifi-masking w args ran
