-- ===== src/Lib.antt =====
-- Verification of Baleen Engine, a daemon and command line that share Docker images between the
-- nodes of a local network, without the layers that the other node already has.
--
-- How the program fits together. A node finds others by mDNS and keeps them in a registry
-- (internal/network). A push (internal/cli/pipeline.go, internal/transfer/sender.go) resolves the
-- peer's name, exports the image, asks the peer which layers it lacks, prunes the tarball to those
-- and streams it. The receiver (internal/transfer/receiver.go) asks its user through the approval
-- queue (internal/cli/repl.go), checks the hash of the stream, stitches the layers it has cached back
-- in and hands the tarball over to Docker. Both ends can pause, resume and cancel
-- (internal/transfer/progress.go, manager.go); the events go to a hub (hub.go), and the history and
-- the memory of cached layers to two buckets of bbolt (internal/ledger/database.go).
--
-- Which file models which code; a definition has the name of the function it models, in snake case.
--   Base             lists, texts, maps, integers, sorting and Go's results
--   Transfer/Archive manifest.go and tarball.go: tarballs as entries with an end
--   Transfer/Prune, Partition, Stitch, Delta
--                    prune.go, stitch.go, partitionLayers of receiver.go; Delta joins the two ends
--   Transfer/Digest, Status
--                    the formats of receiver.go, and ParseErrorToStatus of types.go
--   Transfer/Cache   cache.go, and updateCacheAndLedger of receiver.go
--   Transfer/Receiver, Sender
--                    the rest of receiver.go, and sender.go: one transfer, by what the network, the
--                    disk, the settings and the user answer, with the list of events it causes
--   Transfer/Hub, Progress, Manager
--                    hub.go, progress.go and manager.go
--   Transfer/Exchange  a push and its arrival together
--   Transfer/Engine, Session
--                    a heap of progress writers with the registries, and a stream with its two ends
--   Network/Peers, Address, Discovery, Broadcast
--                    peer_registry.go and peer_health.go, helpers.go, mdns_discovery.go,
--                    mdns_controller.go and mdns_broadcaster.go
--   Docker           internal/docker: the daemon as an interface with laws (Daemon), the preflight
--                    decision, exports, loads with the backup of the old image, and the lines of a
--                    build
--   Cli/Approvals, Pipeline
--                    PendingApprovalStore of internal/cli/repl.go with the handlers of
--                    internal/api/handlers/approval.go, and internal/cli/pipeline.go
--   Cli/Gc, Push, Commands, Client
--                    gc_cli.go; push.go; the choice of a command in repl.go and in client_repl.go;
--                    the client's request of a collection, its prompt for approval, and its wait for
--                    the end of a push
--   Api/Gc, Logs, Settings, Control, Dispatch, Peers, Auth
--                    the handlers of internal/api/handlers by their names (Control is
--                    transfer_control.go), and
--                    internal/api/middleware.go
--   Config           internal/config: the settings files, without the text of their JSON
--   Transfer/Throttle  throttle.go, with the setting that sender.go and receiver.go give it
--   Ledger           internal/ledger/database.go over the interface of a bucket
--   Service/Lock     internal/service/lock.go: each call of the file system is a step
--   Service/State, Daemon
--                    internal/service/state.go; runLauncher and the loading goroutine of
--                    cmd/baleen/daemon.go, runClient of client.go, and the idle test of
--                    internal/api/server.go; Daemon/Arrives joins a push, its arrival and the load
--   Updater          internal/updater/updater.go
--   Install          cmd/baleen/install.go: the plugin of the Docker command line
--   Tests            the theorems at concrete inputs
--
-- How state and operations correspond. A struct is a record and a method a function on it; a method
-- that holds a lock is one step, so that an interleaving of goroutines is a sequence of such steps
-- (Network/Peers/Invariant, Transfer/Session); Write of progress.go holds none and is split into steps
-- (Transfer/Progress/Steps). A map is an association list, in the order of one
-- iteration; a loop that deletes while it ranges visits the entries as they stood when it began. A
-- channel of capacity 1 is the value it holds. A call of the network, the disk, the clock, Docker,
-- zeroconf or a hash function is an argument. bbolt is the record Bucket with the laws of Put, Get,
-- Delete and a cursor that visits each pair of the bucket as it stood when the loop began; in_memory
-- is one. JSON bodies are known by what the decoder makes of them. Errors
-- keep their messages where the program reads them. Floating-point percentages are exact fractions,
-- and filepath.ToSlash is the identity, as on Unix. TryAcquireLock is five steps. A handler is a
-- function of the decoded body, with its status, or the message's parts, as a value. The Docker
-- daemon is the record Daemon: images under names, with laws of inspect, tag, load, remove and build;
-- Tests/Images has one in memory. A loop that polls takes the list of what its rounds find.
--
-- Bounds and fuel. Numbers that the program parses keep the range of 64 bits (fmt.Sscanf and
-- strconv.Atoi), and so does the duration of a collection and the rate of a limit; counts of bytes
-- and clock values are unbounded. Two loops run on fuel: the search for a free tag has one round more
-- than the daemon has names, which is enough since its tags differ, and the copy through a limit one
-- more than the stream has bytes. All other loops are structural.
--
-- Not modelled: the client of the Docker library (internal/docker/client.go), certificates (tls.go),
-- the listener of the metadata server; the routes, listeners and streams of the HTTP
-- server, and its handlers that only encode a value; LaunchBackground and the calls of one platform;
-- the start of the daemon (runDaemon), which wires the parts together; logs, tables, terminal input
-- and output, the other entry points under cmd, and the web interface under ui. They are input and
-- output around the modelled parts, or platform calls. A panic and its recovery, errors of the
-- database, and a file that an error leaves half written are left out as well.
pub mod Base
pub mod Transfer
pub mod Network
pub mod Docker
pub mod Cli
pub mod Api
pub mod Config
pub mod Ledger
pub mod Service
pub mod Updater
pub mod Install
mod Tests
