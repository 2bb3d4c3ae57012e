-- ===== src/Lib.antt =====
-- WakeHub, a server that wakes computers on the network and shuts them down through small clients:
-- a model of its core and proofs about it.
--
-- The parts and their files. A Go method becomes a function from the state to the new state and the
-- results; an `error` is its message or `none`, a panic is a missing result. What a call meets
-- outside of the program (the clock, the random source, the network, a failing write) is one of its
-- arguments.
--
--   Config          internal/config/store.go, the types of the configuration file
--   Config.Random   internal/config/id.go: randomID, RandomToken
--   Config.Password internal/config/password.go; bcrypt is the parameter `Bcrypt`
--   Config.Normalize, Config.Table, Config.Store and its children
--                   internal/config/store.go: the loops over tables, the methods on devices, groups
--                   (Store.Groups), schedules (Store.Schedules) and settings (Store.Globals), and
--                   Open (Store.Loading). Store.Requests joins the operations in one step function
--                   and defines the histories of the server. The state is `Store`: the data in
--                   memory, the file on disk and its backup
--   Audit           internal/audit/log.go: the ring of the newest entries
--   Protocol        internal/protocol/messages.go: the messages of the hub
--   Hub             internal/clientlink/hub.go: the handler HandleWS, cut into `greet`, `receive`,
--                   `heard_pong` and `leave`; Hub.Sessions lets their steps interleave
--   Interfaces      the interfaces of the machine, as the package net lists them, and the broadcast
--                   address of a network, which internal/wol/wol.go and internal/clientapp/nics.go
--                   compute in the same way
--   Wol             internal/wol/wol.go: NewMagicPacket, Bytes, Wake, and LocalIPv4Broadcasts in
--                   Wol.Broadcasts; the network is `Net`
--   Notify          internal/notify/notify.go: what Send posts
--   Service         internal/device/service.go: Wake, clientAction, Batch, the group actions;
--                   the state joins the store, the hub and the ring. Service.Events has
--                   OnSchedule, OnProbeChange and the power handler, Service.Views what the pages
--                   show of a device; Service.Devices has
--                   Create, Update, Delete and FromClient, with the manager of the topics as
--                   the interface `Bemfa`, which Service.Devices.Cloud fills
--   Bemfa           internal/bemfa/manager.go: the topics, the connection and the log of the
--                   manager (Topics, Creation, Session, Ensure; Requests has the histories). The
--                   library bemfa-go is what a `Call` says of it
--   Probe           internal/probe/probe.go: one probe, the cache and the rounds of the runner;
--                   the network is `Net`. Probe.Overtaking lets goroutines come between Set of the
--                   cache and the call of onChange after it, which the lock does not cover
--   Client          internal/clientapp and internal/clientcfg: the requests to switch off
--                   (Control), the start of a session (Greeting), the loop of reconnections
--                   (Reconnect), the texts of service commands (Quote), the order of versions
--                   (Version), the settings (Settings), and what a client tells of its interfaces
--                   (Nics, which has PrimaryMAC of internal/mdns/mdns.go too). The socket is `Line`,
--                   the system around the files is `System`
--   Runner          internal/schedule/runner.go: tick and fire; Actor and Notifier are interfaces
--   Web.Auth        internal/web/auth.go
--   Web.Routes      internal/web/server.go: the pages by their paths, behind the test of Web.Auth
--   Web.Pages       internal/web/meta.go and server.go: the pages that show the state of the server
--   Web.Globals     internal/web/server.go: the page of the settings, which changes the store, the
--                   hub and the manager of the topics together
--   Web.Tables      internal/web/handlers_extra.go: the pages of the groups and the schedules, by
--                   method and path, and the test of a batch
--   Web.Devices     internal/web/server.go: the calls of the service that the pages of the devices
--                   make, by method and path
--   Client.Files, Client.Install, Client.Update
--                   Load and Save of internal/clientcfg, and install.go, log.go and update.go of
--                   internal/clientapp: the client's files, its installation as a service and the
--                   replacement of its program
--   Services        internal/service: the service under systemd and under Windows, behind the
--                   interface `Platform`
--   OpenWrt         internal/openwrt/uci.go: WriteGlobals
--   Os              what these parts ask of the operating system: programs and files, over an
--                   unknown state of the machine. What its documentation says of files is
--                   Os.Files.IsFiles
--   Programs        cmd/server/main.go and cmd/client/main.go: the start of the server, and the
--                   commands of the client with their statuses
--   Mdns            internal/mdns/mdns.go: the peers that the server hears of, and what a client
--                   announces
--   Base, Text      shared helpers: lists, integers, maps, and the functions of Go's `strings`
--   Tests           runs and theorems at small inputs
--
-- A lock makes each method of the store, the hub and the ring one step. The hub's handler reads the
-- token in one step and enters the client in a later one; they are one step here, and the token
-- does not change along a history of the hub. The runner's actor reads the store and does not
-- change it. A round of the probes and a probe that is asked for each run to their end in Probe.
--
-- Bounds. Go's `int` fields that users set are integers without a bound, which the model compares
-- and copies only; times and sizes are natural numbers. The numbers of versions, which the source
-- computes from texts of any length, are taken modulo 2 ^ 64 and compared in two's complement. All
-- recursion is structural but for printing a number, which has one unit of fuel more than the
-- number. Lower case and the folding of cases cover ASCII, Latin-1 and the characters that fold into
-- them.
--
-- The client's memory of requests is pruned in one step: a pruning that interleaves with another
-- one is not modelled. A text that NormalizeWS has made and the messages of the hub reach the other
-- side as they are read there; JSON itself is a parameter.
--
-- Not modelled: the static files, and what the programs print; the parsing of flags; JSON,
-- archives, the interfaces of the system, the network and the programs uci, systemctl and sc.exe,
-- which are parameters.
pub mod Base
pub mod Text
pub mod Config
pub mod Audit
pub mod Client
pub mod Probe
pub mod Mdns
pub mod Protocol
pub mod Hub
pub mod Wol
pub mod Bemfa
pub mod Tests
pub mod Web
pub mod Notify
pub mod Service
pub mod Runner
pub mod Os
pub mod Interfaces
pub mod OpenWrt
pub mod Services
pub mod Programs
