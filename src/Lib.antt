-- ===== src/Lib.antt =====
-- A model of a WireGuard and BGP router's control program and proofs about it. The program runs as
-- two processes: a privileged supervisor, which starts and stops WireGuard and BIRD and sets routes,
-- and a web server, which shows and edits the configuration and asks the supervisor for actions over
-- a Unix socket.
--
-- Base, Text, Strconv, Net, Netip, Base64 and Filepath stand under the model: numbers and lists, and
-- what the source uses of Go's strings, strconv, net, net/netip, encoding/base64 and path/filepath,
-- executable, on byte strings (a text is a list of bytes). Filepath has `Clean`, `Join`, `Abs` and
-- `Rel` of a system whose separator is the slash; Netip/Print prints addresses and prefixes. Lower
-- case and blanks are those of ASCII.
--
-- Wg models internal/wg/config.go. Wg/Scan is `bufio.Scanner`: it stops at a line of 65536 bytes or
-- more. Wg/Line classifies a line and names its directive, Wg/Config is `ParseConfig`, Wg/Transform
-- has `transformConfig`, `RedactConfig`, `MergeRedactedConfig` and `SetconfConfig`, and Wg/Validate
-- is `ValidateConfig`. Maps are association lists or functions.
--
-- Supervisor models internal/supervisor. Supervisor/World has the effects of the managers in a
-- history, and an `Outside` that answers each effect as it likes, knowing the history: commands,
-- processes, files and timers. A wait takes as many rounds as the outside says before its deadline or
-- its context ends it, so every loop ends. Supervisor/Wg is `WGProcessManager` (wg.go): `start`,
-- `stop` and `restart` are `Start`, `Stop` and `Restart`. Start and Stop each hold the mutex, Restart
-- calls one after the other, and the supervisor's action lock lets one request act at a time.
-- Supervisor/Protocol is protocol.go, Supervisor/Dispatch is actions.go with `handle` and `authorize`
-- of server.go; the managers are a record of operations on a state of their own.
--
-- Supervisor/Bird is `BIRDProcessManager` (bird.go), whose loop makes at most twenty attempts.
--
-- Supervisor/Routes has `PinClient` and `applyHostRoute` of routes.go, and Supervisor/Routes/Apply has
-- `Apply` with `endpointAddrs`; the resolver answers as it likes. Supervisor/Client is client.go: what
-- the socket answers is given.
--
-- Bird models internal/bird/config.go. App models internal/config/config.go: App/Load is `Load`, with
-- YAML decoding given, App/Routes the normalisation of pinned client routes, where an IPv6 address is
-- never printed, and App/Paths `ValidateManagedPaths`, for a working directory that is given.
--
-- Orchestrator models internal/orchestrator/routing.go; its client is a function of the calls made.
--
-- Server models internal/server: Server/Logs is logs.go, Server/Auth is auth.go. Times are numbers,
-- random tokens are given from outside, and Server/Auth/Events runs logins and requests one after
-- another. Server/Site is the state of the handlers, with the files that they read and write (paths.go,
-- and `Save` of internal/config/config.go): a `Host` answers each write, which may also fail in the
-- middle of a file. Server/Api has the handlers: Api/Wg is api_wg.go, Api/Settings is api_settings.go,
-- Api/Bird is api_bird.go, Api/Routing is api_routing.go and `supervisorAction`, and Api/Status is
-- api_status.go. What `postSettings` and `postBIRDConfig` do behind their read lock is a function of the
-- configuration that they read there, and Api/Steps is the relation of what handlers that run side by
-- side can do: a handler reads the configuration in one step, and writes its files and replaces the
-- configuration in another. Api/Reload reads back with `Load` what was saved. Server/Mux is the table
-- of routes of server.go; the mux of net/http picks from it, as its documentation says.
--
-- Diag models internal/diag/diag.go and api_diag.go. Cmd models `maybeAutoStart` and `appUID` of
-- cmd/peplink-wg-bgp/main.go.
--
-- Tests has runs at concrete inputs.
--
-- Not modelled: sockets, JSON, YAML, the event stream and HTML pages, which are input and output; the
-- text of a build's version; the modes of the command, which wire the parts together. What a handler
-- does behind its read lock is one step, so that other handlers do not act between its writes, nor
-- between them and its replacement of the configuration. Machine integers appear where a port, an MTU
-- or a number of 32 bits is read, with their bounds.
pub mod Base
pub mod Text
pub mod Strconv
pub mod Net
pub mod Netip
pub mod Base64
pub mod Filepath
pub mod Wg
pub mod Supervisor
pub mod Bird
pub mod App
pub mod Orchestrator
pub mod Server
pub mod Diag
pub mod Cmd
mod Tests
