-- ===== src/Host.antt =====
-- The machine that pispot-authd runs on: the commands that it starts, and what os.Stat says.
use pispot.Base.{Bool, Option, none, some, List, [], ◌∷◌, ◌++◌}
use pispot.Go.Bytes.{Bytes, lit}
use pispot.Result.{Result, ok, err}

-- A command and its arguments.
abbrev pub Argv : Type 0
Argv = List Bytes

-- What CombinedOutput returns: the output, and the error's text if the command failed.
pub record Outcome : Type 0 where
  pub output : Bytes
  pub failed : Option Bytes

-- os.Stat: os.IsNotExist tells the second answer from the others.
pub data Presence : Type 0 where
  found : Presence
  not_exist : Presence
  unreadable : Presence

-- The outcome of a command may depend on the commands before it.
pub record Host : Type 0 where
  pub stat : Bytes → Presence
  pub exec : List Argv → Argv → Outcome

-- An operation that runs commands: from those run so far to a result and those run then.
abbrev pub Action : Type 0
Action = List Argv → Result (Unit {0}) × List Argv

unfoldable pub and_then : Result (Unit {0}) × List Argv → Action → Result (Unit {0}) × List Argv
and_then (ok _, ran) next = next ran
and_then (err e, ran) next = (err e, ran)

-- `next` runs behind `first` if that succeeded.
infixr 5 ◌>>◌
abbrev pub ◌>>◌ : Action → Action → Action
◌>>◌ first next ran = and_then (first ran) next

-- `fmt.Errorf("%w (output: %s)", err, out)`
output_error : Bytes → Bytes → Bytes
output_error e out = e ++ (lit " (output: " ++ (out ++ lit ")"))

finished : (Bytes → Bytes) → Bytes → Outcome → Result (Unit {0})
finished shown context r = elim r.failed [
  | none ↦ ok tt
  | some e ↦ err (context ++ output_error e (shown r.output))
]

module _ (host : Host) where
  -- A command whose error is returned behind `context`; `shown` is what the error tells of the output.
  unfoldable pub command : (Bytes → Bytes) → Bytes → Argv → Action
  unfolding finished output_error
  command shown context argv ran = (finished shown context (host.exec ran argv), ran ++ argv ∷ [])

  -- A command whose error is logged and dropped.
  unfoldable pub tried : Argv → Action
  tried argv ran = (ok tt, ran ++ argv ∷ [])

-- `os.IsNotExist(err)` behind os.Stat.
abbrev pub is_missing : Presence → Bool
is_missing not_exist = Bool.true
is_missing found = Bool.false
is_missing unreadable = Bool.false
