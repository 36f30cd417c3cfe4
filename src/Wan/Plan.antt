-- ===== src/Wan/Plan.antt =====
-- The commands of an operation as a plan: a list of commands in order, of which some may fail.
use pispot.Base.{
  ◌≡◌, refl, Bool, true, false, none, some, List, [], ◌∷◌, ◌++◌, ◌⊎◌, ◌||◌, inl, inr, Bool-cases,
  Option-cases,
}
use pispot.Go.Bytes.{Bytes, lit}
use pispot.Go.Space.{trim_space}
use pispot.Host.{Argv, Host, Action, ◌>>◌, and_then, command, tried, is_missing}
use pispot.Result.{Result, ok, err}
use pispot.Wan.{
  wlan1_path, wireless_path, start_supplicant, stop_supplicant, request_lease, release_lease,
  up_with, down_with, reload,
}

-- A command, and whether its failure ends the operation.
abbrev pub Plan : Type 0
Plan = List (Argv × Bool)

-- `Runs host plan ran r`: `r` is what running `plan` behind the commands `ran` gives, each command in
-- turn, up to the first failure that matters, which ends it with an error.
pub data Runs (host : Host) : Plan → List Argv → Result (Unit {0}) × List Argv → Type 0 where
  done : {ran : List Argv} → Runs host [] ran (ok tt, ran)
  passed :
      {argv : Argv} {must : Bool} {plan : Plan} {ran : List Argv}
      {r : Result (Unit {0}) × List Argv}
      → (host.exec ran argv).failed ≡ none
      → Runs host plan (ran ++ argv ∷ []) r
      → Runs host ((argv, must) ∷ plan) ran r
  ignored :
      {argv : Argv} {plan : Plan} {ran : List Argv} {r : Result (Unit {0}) × List Argv} (e : Bytes)
      → (host.exec ran argv).failed ≡ some e
      → Runs host plan (ran ++ argv ∷ []) r
      → Runs host ((argv, false) ∷ plan) ran r
  broken :
      {argv : Argv} {plan : Plan} {ran : List Argv} (e text : Bytes)
      → (host.exec ran argv).failed ≡ some e
      → Runs host ((argv, true) ∷ plan) ran (err text, ran ++ argv ∷ [])

-- A command in front of the rest.
command-Runs :
    (host : Host) (shown : Bytes → Bytes) (context : Bytes) (argv : Argv) (plan : Plan)
    (next : Action) (ran : List Argv)
    → Runs host plan (ran ++ argv ∷ []) (next (ran ++ argv ∷ []))
    → Runs host ((argv, true) ∷ plan) ran ((command host shown context argv >> next) ran)
unfolding command and_then
command-Runs host shown context argv plan next ran h =
    elim (Option-cases (host.exec ran argv).failed) [
      | inl none_failed ↦ rw none_failed (passed none_failed h)
      | inr (e, failed) ↦ rw failed (broken e _ failed)
    ]

tried-Runs :
    (host : Host) (argv : Argv) (plan : Plan) (next : Action) (ran : List Argv)
    → Runs host plan (ran ++ argv ∷ []) (next (ran ++ argv ∷ []))
    → Runs host ((argv, false) ∷ plan) ran ((tried host argv >> next) ran)
unfolding tried and_then
tried-Runs host argv plan next ran h = elim (Option-cases (host.exec ran argv).failed) [
  | inl none_failed ↦ passed none_failed h
  | inr (e, failed) ↦ ignored e failed h
]

last-Runs :
    (host : Host) (shown : Bytes → Bytes) (context : Bytes) (argv : Argv) (ran : List Argv)
    → Runs host ((argv, true) ∷ []) ran (command host shown context argv ran)
unfolding command
last-Runs host shown context argv ran = elim (Option-cases (host.exec ran argv).failed) [
  | inl none_failed ↦ rw none_failed (passed none_failed done)
  | inr (e, failed) ↦ rw failed (broken e _ failed)
]

abbrev pub up_plan : Plan
up_plan = (start_supplicant, true) ∷ (request_lease, true) ∷ []

abbrev pub down_plan : Plan
down_plan = (stop_supplicant, true) ∷ (release_lease, true) ∷ []

-- A failed release of the lease does not end a reload.
abbrev pub reload_plan : Plan
reload_plan = (stop_supplicant, true) ∷ (release_lease, false) ∷ up_plan

up_with-Runs :
    (host : Host) (shown : Bytes → Bytes) (ran : List Argv)
    → is_missing (host.stat wlan1_path) ≡ false
    → is_missing (host.stat wireless_path) ≡ false
    → Runs host up_plan ran (up_with host shown ran)
unfolding up_with
up_with-Runs host shown ran here wireless =
    rw (here, wireless)
      (command-Runs host shown _ start_supplicant _ (command host shown _ request_lease) ran
        (last-Runs host shown _ request_lease _))

-- `Up` and `pispotctl wan-up`: without a wireless wlan1 an error and no command; otherwise the
-- supplicant is started and then the lease requested, up to the first command that fails.
pub up_with_lem :
    (host : Host) (shown : Bytes → Bytes) (ran : List Argv)
    → (((is_missing (host.stat wlan1_path) || is_missing (host.stat wireless_path)) ≡ true)
        × ((e : Bytes) × (up_with host shown ran ≡ (err e, ran))))
      ⊎ (((is_missing (host.stat wlan1_path) || is_missing (host.stat wireless_path)) ≡ false)
          × Runs host up_plan ran (up_with host shown ran))
up_with_lem host shown ran = elim (Bool-cases (is_missing (host.stat wlan1_path))) [
  | inl absent ↦ rw absent (inl (refl, (lit "wlan1 does not exist", unfold up_with in rw absent)))
  | inr here ↦ elim (Bool-cases (is_missing (host.stat wireless_path))) [
    | inl wired ↦
        rw (here, wired)
          (inl (
            refl,
            (
              lit "wlan1 exists but is not a wireless interface",
              unfold up_with in rw (here, wired),
            ),
          ))
    | inr wireless ↦ rw (here, wireless) (inr (refl, up_with-Runs host shown ran here wireless))
  ]
]

-- `Down` and `pispotctl wan-down`: the supplicant is stopped and then the lease released, up to the
-- first command that fails.
pub down_with-Runs :
    (host : Host) (shown : Bytes → Bytes) (ran : List Argv)
    → Runs host down_plan ran (down_with host shown ran)
unfolding down_with
down_with-Runs host shown ran =
    command-Runs host shown _ stop_supplicant _ (command host shown _ release_lease) ran
      (last-Runs host shown _ release_lease _)

reload-Runs :
    (host : Host) (ran : List Argv)
    → is_missing (host.stat wlan1_path) ≡ false
    → Runs host reload_plan ran (reload host ran)
unfolding reload
reload-Runs host ran here = rw here (
    command-Runs host trim_space _ stop_supplicant _ _ ran (
      tried-Runs host release_lease _ _ _ (
        command-Runs host trim_space _ start_supplicant _ _ _
          (last-Runs host trim_space _ request_lease _))))

-- `Reload`: without wlan1 success and no command; otherwise the supplicant is stopped, the lease
-- released, the supplicant started and a lease requested, up to the first failure of a command other
-- than the release.
pub reload_lem :
    (host : Host) (ran : List Argv)
    → ((is_missing (host.stat wlan1_path) ≡ true) × (reload host ran ≡ (ok tt, ran)))
      ⊎ ((is_missing (host.stat wlan1_path) ≡ false) × Runs host reload_plan ran (reload host ran))
reload_lem host ran = elim (Bool-cases (is_missing (host.stat wlan1_path))) [
  | inl absent ↦ inl (absent, unfold reload in rw absent)
  | inr here ↦ inr (here, reload-Runs host ran here)
]
