-- ===== src/Authd/Serve/Restricted.antt =====
-- Whom the daemon serves, from its start to its end.
use pispot.Base.{
  ℕ, ◌≡◌, refl, sym, ap, ◌∙◌, ◌⊎◌, inl, inr, Bool, true, false, Option, none, some, List, [], ◌∷◌,
  ◌++◌, ◌&&◌, map, Bool-cases, Option-cases, append-nil, append_assoc, if◌then◌else◌,
}
use pispot.Authd.Serve.{
  Accept, accepted, closed, failed, Calls, Started, Server, owner_only, spawn, removed, accept_loop,
  deferred, on_chmod, on_listen, serve, Fate, fatal, stopped, serving, fate, Connection, Work,
  serve_connection, on_config, flag, main,
}
use pispot.Authd.Settings.{load_config}
use pispot.Go.Bytes.{Bytes, lit}
use pispot.Groups.{Config}
use pispot.Result.{Result, ok, err}

module _ {C : Type 0} where
  -- The connections in front of the first net.ErrClosed.
  pub connections : List (Accept C) → List C
  connections [] = []
  connections (closed ∷ rest) = []
  connections (failed e ∷ rest) = connections rest
  connections (accepted conn ∷ rest) = conn ∷ connections rest

  pub is_closed : List (Accept C) → Bool
  is_closed [] = false
  is_closed (closed ∷ rest) = true
  is_closed (failed e ∷ rest) = is_closed rest
  is_closed (accepted conn ∷ rest) = is_closed rest

-- A goroutine for each connection, in order, started with these permissions of the socket.
abbrev pub goroutines : {C G : Type 0} → (C → G) → Option ℕ → List C → List (Started G)
goroutines handler mode = map (λ conn. record { mode = mode; goroutine = handler conn })

module _ {C G : Type 0} (handler : C → G) where
  accept_loop-connections :
      (accepts : List (Accept C)) (s : Server G)
      → accept_loop handler accepts s ≡ (
        if is_closed accepts then some (ok tt) else none,
        record s { started = s.started ++ goroutines handler s.file (connections accepts) },
      )
  unfolding accept_loop connections is_closed spawn
  accept_loop-connections [] s =
      ap (λ l. (none, record s { started = l })) (sym (append-nil s.started))
  accept_loop-connections (closed ∷ rest) s =
      ap (λ l. (some (ok tt), record s { started = l })) (sym (append-nil s.started))
  accept_loop-connections (failed e ∷ rest) s = accept_loop-connections rest s
  accept_loop-connections (accepted conn ∷ rest) s =
      accept_loop-connections rest (spawn (handler conn) s)
      ∙ ap (λ l. (if is_closed rest then some (ok tt) else none, record s { started = l }))
          (append_assoc s.started (record { mode = s.file; goroutine = handler conn } ∷ []) _)

  -- Serve, when the socket can be had.
  serve-connections :
      (calls : Calls) (accepts : List (Accept C)) (s : Server G)
      → calls.listen_error ≡ none
      → calls.chmod_error ≡ none
      → serve handler calls accepts s ≡ (
        if is_closed accepts then some (ok tt) else none,
        record {
          file =
              if is_closed accepts then removed calls.cleans (some owner_only) else some owner_only;
          started = s.started ++ goroutines handler (some owner_only) (connections accepts);
        },
      )
  unfolding serve on_listen on_chmod deferred
  serve-connections calls accepts s listens chmods =
      rw (listens, chmods, accept_loop-connections accepts (record s { file = some owner_only }))
        (elim (Bool-cases (is_closed accepts)) [
          | inl ends ↦ rw ends refl
          | inr goes_on ↦ rw goes_on refl
        ])

  -- Serve, when it cannot.
  serve-error :
      (calls : Calls) (accepts : List (Accept C)) (s : Server G) (e : Bytes)
      → (calls.listen_error ≡ some e) ⊎ ((calls.listen_error ≡ none) × (calls.chmod_error ≡ some e))
      → ((serve handler calls accepts s).0 ≡ some (err e))
        × ((serve handler calls accepts s).1.started ≡ s.started)
  unfolding serve on_listen on_chmod deferred
  serve-error calls accepts s e (inl fails) = rw fails (refl, refl)
  serve-error calls accepts s e (inr (listens, fails)) = rw (listens, fails) (refl, refl)

-- The reason for which the daemon does not serve, and the message that it ends with.
pub data Refuses (loaded : Config × Option Bytes) (calls : Calls) (f : Fate) : Type 0 where
  no_config :
      (e : Bytes)
      → loaded.1 ≡ some e
      → f ≡ fatal (lit "load config: " ++ e)
      → Refuses loaded calls f
  no_socket :
      (e : Bytes)
      → (calls.listen_error ≡ some e) ⊎ ((calls.listen_error ≡ none) × (calls.chmod_error ≡ some e))
      → f ≡ fatal (lit "serve: " ++ e)
      → Refuses loaded calls f

-- The goroutines of a daemon that serves: one for each connection, in order, each with the groups of
-- the configuration file, and started when only the owner could open the socket.
pub record Serves (loaded : Config × Option Bytes) (calls : Calls)
    (accepts : List (Accept Connection)) (s' : Server Work) (f : Fate) : Type 0 where
  pub cfg : Config
  pub configured : loaded ≡ (cfg, none)
  pub started :
      s'.started ≡ goroutines (serve_connection cfg) (some owner_only) (connections accepts)
  pub ends : f ≡ (if is_closed accepts then stopped else serving)
  pub left : s'.file ≡ (if is_closed accepts && calls.cleans then none else some owner_only)

served :
    (loaded : Config × Option Bytes) (calls : Calls) (accepts : List (Accept Connection))
    (s : Server Work)
    → s.started ≡ []
    → let (f, s') = on_config loaded calls accepts s in
      ((s'.started ≡ []) × Refuses loaded calls f) ⊎ Serves loaded calls accepts s' f
unfolding on_config fate removed
served (cfg, some e) calls accepts s none_yet = inl (none_yet, no_config e refl refl)
served (cfg, none) calls accepts s none_yet = elim (Option-cases calls.listen_error) [
  | inr (e, fails) ↦
      let (result, started) = serve-error (serve_connection cfg) calls accepts s e (inl fails) in
      inl (started ∙ none_yet, no_socket e (inl fails) (ap fate result))
  | inl listens ↦ elim (Option-cases calls.chmod_error) [
    | inr (e, fails) ↦
        let (result, started) =
          serve-error (serve_connection cfg) calls accepts s e (inr (listens, fails)) in
        inl (started ∙ none_yet, no_socket e (inr (listens, fails)) (ap fate result))
    | inl restricts ↦
        let all = serve-connections (serve_connection cfg) calls accepts s listens restricts in
        inr (record {
          cfg = cfg;
          configured = refl;
          started =
              ap (λ r. r.1.started) all
              ∙ ap
                  (λ l.
                    l ++ goroutines (serve_connection cfg) (some owner_only) (connections accepts))
                  none_yet;
          ends = ap (λ r. fate r.0) all ∙ elim (Bool-cases (is_closed accepts)) [
            | inl ends ↦ rw ends refl
            | inr goes_on ↦ rw goes_on refl
          ];
          left = ap (λ r. r.1.file) all ∙ elim (Bool-cases (is_closed accepts)) [
            | inl ends ↦ rw ends refl
            | inr goes_on ↦ rw goes_on refl
          ];
        })
  ]
]

-- Whatever the flags and the system calls, and whatever l.Accept returns: pispot-authd either ends with
-- the error of its configuration, of net.Listen or of os.Chmod, and starts no goroutine, or it starts one
-- for each connection that it accepts up to net.ErrClosed, in their order, whatever other errors come in
-- between, each with the configuration of the file and while the socket has the permissions 0600; and it
-- ends, without an error, if and only if net.ErrClosed comes, and then the socket is removed unless that
-- fails.
pub main-Serves :
    (read : Bytes → Result Bytes) (calls : Bytes → Calls) (config_flag socket_flag : Option Bytes)
    (accepts : List (Accept Connection)) (s : Server Work)
    → s.started ≡ []
    → let loaded = load_config (read (flag config_flag (lit "/etc/pispot/authd.conf"))) in
      let at = calls (flag socket_flag (lit "/run/pispot/pispot-authd.sock")) in
      let (f, s') = main read calls config_flag socket_flag accepts s in
      ((s'.started ≡ []) × Refuses loaded at f) ⊎ Serves loaded at accepts s' f
unfolding main
main-Serves read calls config_flag socket_flag accepts s none_yet = served _ _ accepts s none_yet
