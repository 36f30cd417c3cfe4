-- ===== src/Authd/Serve.antt =====
-- Serve of host/internal/socket/server.go, and main of host/cmd/pispot-authd/main.go around it.
pub mod Restricted
use pispot.Base.{ℕ, Bool, Option, none, some, List, [], ◌∷◌, ◌++◌, if◌then◌else◌}
use pispot.Authd.{Env, Daemon, handle}
use pispot.Authd.Settings.{load_config}
use pispot.Go.Bytes.{Bytes, lit}
use pispot.Groups.{Config}
use pispot.Result.{Result, ok, err}
use pispot.Socket.{Request, Response}

-- What l.Accept returns: a connection, net.ErrClosed, which it returns from the signal on, or another
-- error.
pub data Accept (C : Type 0) : Type 0 where
  accepted : C → Accept C
  closed : Accept C
  failed : Bytes → Accept C

-- What the other calls come to: whether os.Remove removes what is at the path, the error of net.Listen,
-- the permissions that it gives the socket, the error of os.Chmod, and whether l.Close or os.Remove
-- removes the socket.
pub record Calls : Type 0 where
  pub removes : Bool
  pub listen_error : Option Bytes
  pub created_mode : ℕ
  pub chmod_error : Option Bytes
  pub cleans : Bool

-- A goroutine, and the permissions of the socket when it was started.
pub record Started (G : Type 0) : Type 0 where
  pub mode : Option ℕ
  pub goroutine : G

-- The permissions of what is at the path of the socket, if something is there, and the goroutines
-- started, the first of them first.
pub record Server (G : Type 0) : Type 0 where
  pub file : Option ℕ
  pub started : List (Started G)

-- `os.FileMode(0600)`
abbrev pub owner_only : ℕ
owner_only = 384

-- `go handle(ctx, conn, handler)`
pub spawn : {G : Type 0} → G → Server G → Server G
spawn g s = record s { started = s.started ++ record { mode = s.file; goroutine = g } ∷ [] }

-- What is at the path behind a removal.
removed : Bool → Option ℕ → Option ℕ
removed done file = if done then none else file

module _ {C G : Type 0} (handler : C → G) where
  -- The loop, on what l.Accept returns one time after the other; `none` if the loop goes on behind it.
  pub accept_loop : List (Accept C) → Server G → Option (Result (Unit {0})) × Server G
  accept_loop [] s = (none, s)
  accept_loop (closed ∷ rest) s = (some (ok tt), s)
  accept_loop (failed e ∷ rest) s = accept_loop rest s
  accept_loop (accepted conn ∷ rest) s = accept_loop rest (spawn (handler conn) s)

  -- The deferred function, which runs when Serve returns.
  deferred : Calls → Option (Result (Unit {0})) × Server G → Option (Result (Unit {0})) × Server G
  deferred calls (none, s) = (none, s)
  deferred calls (some r, s) = (some r, record s { file = removed calls.cleans s.file })

  -- Behind net.Listen, and behind os.Chmod.
  on_chmod : Option Bytes → List (Accept C) → Server G → Option (Result (Unit {0})) × Server G
  on_chmod (some e) accepts s = (some (err e), s)
  on_chmod none accepts s = accept_loop accepts (record s { file = some owner_only })

  on_listen :
      Calls → Option Bytes → List (Accept C) → Server G → Option (Result (Unit {0})) × Server G
  on_listen calls (some e) accepts s = (some (err e), s)
  on_listen calls none accepts s =
      deferred calls
        (on_chmod calls.chmod_error accepts (record s { file = some calls.created_mode }))

  -- Serve, up to where it has got on these results of l.Accept.
  pub serve : Calls → List (Accept C) → Server G → Option (Result (Unit {0})) × Server G
  serve calls accepts s =
      on_listen calls calls.listen_error accepts (record s { file = removed calls.removes s.file })

-- How the process goes: it ends by log.Fatalf or by the end of `main`, or serves on.
pub data Fate : Type 0 where
  fatal : Bytes → Fate
  stopped : Fate
  serving : Fate

fate : Option (Result (Unit {0})) → Fate
fate none = serving
fate (some (ok _)) = stopped
fate (some (err e)) = fatal (lit "serve: " ++ e)

-- A connection: the surroundings of its request, and what json.Decoder makes of its bytes.
abbrev pub Connection : Type 0
Connection = Env × Option Request

-- What a goroutine does to the daemon.
abbrev pub Work : Type 0
Work = Daemon → Response × Daemon

-- `handler` of main, which calls handleRequest with the configuration.
pub serve_connection : Config → Connection → Work
serve_connection cfg (env, req) = handle (record env { groups = cfg }) req

on_config :
    Config × Option Bytes → Calls → List (Accept Connection) → Server Work → Fate × Server Work
on_config (cfg, some e) calls accepts s = (fatal (lit "load config: " ++ e), s)
on_config (cfg, none) calls accepts s =
    let (r, s') = serve (serve_connection cfg) calls accepts s in (fate r, s')

-- flag.String: the value that is given, or the default.
abbrev pub flag : Option Bytes → Bytes → Bytes
flag none def = def
flag (some v) def = v

-- `main`, over what os.Open and reading give of a path, and the two flags if they are given.
pub main :
    (Bytes → Result Bytes)
    → (Bytes → Calls)
    → Option Bytes
    → Option Bytes
    → List (Accept Connection)
    → Server Work
    → Fate × Server Work
main read calls config_flag socket_flag accepts s =
    on_config (load_config (read (flag config_flag (lit "/etc/pispot/authd.conf"))))
      (calls (flag socket_flag (lit "/run/pispot/pispot-authd.sock"))) accepts s
