-- ===== src/Lib.antt =====
-- pispot turns a Raspberry Pi into a Wi-Fi hotspot and router. Two programs work together.
-- pispot-ui (dashboard/cmd/pispot-ui) serves a dashboard and an HTTP API without privileges.
-- pispot-authd (host/cmd/pispot-authd) runs as root and answers requests on a Unix socket: it
-- checks passwords through PAM, gives roles by Unix groups, brings the WAN link up and down, and
-- edits the wpa_supplicant configuration of wlan1.
--
-- A request to the API passes the middleware of dashboard/internal/authz, which asks the daemon
-- for the role of the user and keeps the answer for five minutes, then a handler of
-- dashboard/internal/api, which calls the daemon for the operation. The daemon's `handleRequest`
-- calls host/internal/auth, groups, wan and wifi.
--
-- Go: the parts of Go's standard library that the code leans on, written out on byte strings:
--   lists of numbers below 256. Go/Bytes has strings.HasPrefix, TrimPrefix and the like; Go/Space
--   TrimSpace and Fields with unicode.IsSpace; Go/Replace bytes.ReplaceAll; Go/Lines bufio.Scanner
--   with the limit of its buffer; Go/Quote the verb %q; Go/Lower strings.ToLower; Go/Numbers
--   strconv.ParseUint and Atoi, where int has 64 bits; Go/Map maps with string keys; Go/Floats is
--   what is asked of float64, a parameter. The Unicode tables behind strconv.IsPrint and
--   unicode.ToLower are the record Unicode, a parameter of which nothing is asked.
-- Result, Host: results with an error's text, and the host: os.Stat and exec.Command are the
--   fields of the record Host. A command's outcome may depend on the commands run before it.
-- Schedule: goroutines at the same time, as interleavings of their steps in the order of a
--   schedule; Schedule/Progress counts the steps of one of them, and Schedule/Alone has
--   a goroutine that no other interrupts.
-- Wifi: host/internal/wifi/config.go. Wifi/Config has `parse` (a record of the loop's variables,
--   one function per arm of the loop), `unquote`, and the text that `write` builds; its children
--   prove what they do to the header, to blocks and to whole files. Wifi/Store has `List`, `Add`,
--   `Remove` and `write` over the configuration file and its temporary file; the record Os says
--   which system calls fail. Wifi/Store/Atomic, Faults, Refine and Quoting have the theorems.
--   Wifi/Store/Race has the same `Add` and `Remove` as rows of system calls, which requests that
--   Serve of host/internal/socket/server.go runs at the same time take in the order of a schedule;
--   its children are Race/Outcome, Alone, Reads and Lost.
-- Wan: host/internal/wan/ops.go, `Reload` of the wifi package, and `wanUp` and `wanDown` of
--   host/cmd/pispotctl/main.go, as actions on the row of commands run; Wan/Plan has their plans.
-- Groups: host/internal/groups/lookup.go, over the name service as a parameter.
-- Socket: the messages of host/internal/socket/protocol.go and
--   dashboard/internal/authz/protocol.go.
-- Authd: the handlers of host/cmd/pispot-authd/main.go, `handle` of host/internal/socket/server.go
--   and host/internal/auth/pam.go, over the daemon's state: the files and the commands run.
--   Authd/Settings has `loadConfig`. Authd/Serve has `Serve` of server.go, with the socket file
--   and its permissions, over what the system calls and l.Accept return, and `main` around it.
-- Http: requests and responses of net/http as far as the handlers use them.
-- Authz: dashboard/internal/authz: Authz/Cache (cache.go, with SHA-256 as a parameter of which
--   only the size of the digest is asked), Authz/Middleware (middleware.go), Authz/Client
--   (client.go). Authz/Middleware/Race has requests at the same time: a step reads the cache,
--   calls the helper, or writes the cache.
-- Api: the handlers of dashboard/internal/api/handlers.go that call the daemon, and the routes of
--   dashboard/cmd/pispot-ui/main.go.
-- Dashboard: pispot-ui in front of pispot-authd: the middleware and the routes over the handlers
--   of Authd. Dashboard/Privilege joins the theorems of the parts for requests one at a time, and
--   Dashboard/Race and its children for requests at the same time, which are the steps of
--   Authz/Middleware/Race and one of the handler. Dashboard/Main is
--   dashboard/cmd/pispot-ui/main.go: the pages, the log of requests and the ends of the process.
--   Dashboard/Machine has `New` of the collectors: what they read of a machine, by the
--   configuration. Dashboard/Config is dashboard/internal/config/config.go, over os.LookupEnv as a
--   parameter; Dashboard/Config/Start has the checks of the TLS settings of
--   dashboard/cmd/pispot-ui/main.go.
-- Lazy: what the collectors of dashboard/internal/admin, hotspot and wan share, an interface of
--   operations and laws: a cache of one second, refreshed under a lock when somebody asks. Each
--   collector's Rate fills it. The answers of the host to a refresh are the record Probe.
-- Ip: the answers of `ip -j` behind json.Unmarshal, a parameter.
-- Admin: dashboard/internal/admin/eth.go, the collector of the administration interface.
-- Hotspot: Hotspot/Leases is dashboard/internal/hotspot/leases.go, the lease file of dnsmasq;
--   Hotspot/Stations is clients.go beside it, the stations that `iw` lists; Hotspot/Collector is
--   collector.go beside them, which joins the two.
-- WanLink: dashboard/internal/wan: ssid.go, and in WanLink/Collector collector.go.
-- Sysinfo: dashboard/internal/system/info.go: the parsers, in Sysinfo/Zones the choice of the
--   thermal zone, and in Sysinfo/Collector the ticks and the log of `Run`.
-- Netstats: dashboard/internal/netstats/throughput.go: the parser of /proc/net/dev and the ticks.
-- Stats: the sections of the statistics of dashboard/internal/api/handlers.go, and in
--   Stats/Request `Stats`, over the states of the collectors, and `Healthz`.
-- Web: dashboard/internal/web/title.go and noCacheStatic, over the embedded files and
--   http.FileServer.
-- Ctl: host/cmd/pispotctl/main.go: Ctl/Main has `main` and `requireRoot`, Ctl/Networks `wifiList`,
--   Ctl/Reports `status` and `logs`. A process is its status, its output and the commands that it
--   ran.
-- Tests: the definitions and theorems at concrete inputs.
--
-- Bounds. Instants are nanoseconds as natural numbers; Go's durations of 63 bits reach over 292
-- years. The scanner's limits are the code's own, 65536 bytes and, for stations, a mebibyte. No
-- definition needs fuel but the printing of decimal numbers, where `suc n` steps are enough for
-- the digits of n.
--
-- A step of Wifi/Store/Race is one system call, and a file is read or written by one; a request
-- takes six at most. A step of Dashboard/Race is what a request does under the lock of the cache,
-- the call of the helper, or the handler with its call of the daemon, and a request takes four at
-- most; the daemon works on a call in one go there. Its authentications run pamtester, which
-- is the parameter `pam` and is not kept among the commands of the daemon's state, and
-- Wifi/Store/Race has what interleaves where networks are added and removed; WAN operations at
-- the same time are not modelled. The lazy collectors are refreshed under
-- their lock. The instants of a request are its own, and nothing is asked of those of two
-- requests. Texts on the socket and in HTTP are taken to be valid UTF-8, as which encoding/json
-- carries them unchanged, and paths to be clean, as net/http makes them before it picks a route.
-- Lines of the log are left out, but for those of the collectors and of requests. Timeouts of
-- commands and of the socket show as their failures.
--
-- Not modelled: what net, net/http and os/signal do inside, the durations in the log of requests,
-- the scripts and styles of the page, which are in other languages, the deployment and its
-- scripts.
pub mod Admin
pub mod Api
pub mod Authd
pub mod Authz
pub mod Base
pub mod Ctl
pub mod Dashboard
pub mod Go
pub mod Groups
pub mod Host
pub mod Hotspot
pub mod Http
pub mod Ip
pub mod Lazy
pub mod Netstats
pub mod Result
pub mod Schedule
pub mod Socket
pub mod Stats
pub mod Sysinfo
pub mod Tests
pub mod Wan
pub mod WanLink
pub mod Web
pub mod Wifi
