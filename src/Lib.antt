-- ===== src/Lib.antt =====
-- The URnetwork client: a command-line VPN and SOCKS5 client in Go, as functions on byte strings and
-- records.
--
-- Parts of the program, and the files that model them:
--   vpn_core.go (shouldDropInbound and its halves): Inbound, with Go's net.IPNet.Contains and
--     net.IP.To4 in Net. A packet is a list of bytes; a read outside of it is `none`.
--   vpn_core.go (parseCIDRHost, vpnRunCore): Dataplane. The two packet loops run in two goroutines
--     that share only atomic counters, so a run is a list of their events, in any order.
--     Dataplane.Stats has the ticker, which loads the counters one by one, and for it the single
--     steps of the loops, from one counter to the next; Dataplane.Core has the course of vpnRunCore.
--   The deferred calls of cmdVpn and cmdOpen: Lifetime. A trace is a list of steps that acquire or
--     release something, or do something else; Session.Course has the start that both versions of
--     cmdVpn share, Linux.Whole and Darwin.Whole the rest of each, and Open that of cmdOpen. What a
--     command only starts, such as the packet loops and the multi-client, is an action of its trace;
--     how long it runs on is outside.
--   socks.go (handleSocksConn): Socks.Handshake, a monad over the connection: what is unread, what
--     was sent and whether the handshake deadline stands. domainMatches, the routing rule and the
--     choice among resolved addresses, which the UDP half repeats, are in Socks.
--   socks.go (runUDPAssociate): Socks.Associate has the sockets, and the loops as single steps on what
--     they share, in any order; Socks.Datagram has the headers and the routing of one datagram.
--   config.go: Config. util.go: Util. specs.go and the result types of api_http.go: Specs.
--   routes_linux.go: Linux.Routes. The session is the manager and the commands run so far; only
--     the kill switch reads whether a command succeeded. vpn_linux.go: Linux.Gateways for the list
--     of default routes, Linux for the calls of the route manager.
--   routes.go: Routes, the interface as a record of operations with laws on what was added and set,
--     but not on routes that were there before, and its client, a session with a deferred Cleanup.
--     Linux.Contract and Darwin.Contract fill the record.
--   vpn_linux.go (the mode of cmdVpn) and isTUNDisabled of vpn_core.go: Session.
--   vpn_darwin.go: Darwin for the parsers, Darwin.Session for the start of cmdVpn and its calls of the
--     route manager. routes_darwin.go: Darwin.Routes. The manager reads the answers of its commands,
--     so the session is the manager and the log of commands with their answers.
--   auth.go, cmd_login.go, cmd_auth.go: Account, a monad over the token file and the list of calls
--     made so far; the host says what the server answers to the last call and which writes fail.
--     cmd_quickconnect.go: Account.QuickConnect, with the renewal behind it. Account.Commands runs
--     all of these commands one after the other.
--   logger.go: Logger. jwt.go: Jwt for the content of the file, Account for the reading of a claim and
--     the validating call. process.go: Process.
--   socks.go (StartSocks5, bindFDToInterface) and cmd_socks.go: Socks.Server.
--   main.go: Main, with the usage text in Main.Usage. cmd_open.go: Open. cmd_providers.go: Providers.
--   cmd_locations.go: Locations. api_http.go: Http for the requests, Specs for the
--     result types. vpn_core.go (logStartupConfig): Startup.
--   Text has Go's string functions, Base the shared notation and lemmas, Tests concrete runs.
-- The settings of Config reach the filter and the allowlist (Dataplane), the routing rule (Socks),
-- the specs (Specs) and the route calls (Linux), as in cmdVpn and vpnRunCore.
--
-- Bounds: texts are bytes, and ToLower, EqualFold and TrimSpace act on ASCII only. Counters wrap at
-- 2^64, and seconds become nanoseconds in 64 bits. The handshake buffer has 262 bytes; a longer read
-- would be a panic, which is a result of its own. itoa has fuel for 20 digits, enough for a port. The
-- refresh loop of quick-connect waits for the server or for the end of the context, so it has fuel;
-- each round makes a call, so fuel for the calls that the context lasts is enough. All other loops
-- are over lists.
--
-- Parameters: url.Parse, net.ParseIP, net.ParseCIDR, the resolver, the dialler, the sockets, devices
-- and servers that can be opened, the writes that succeed, docopt's parse of the options, the answers of
-- the login calls and of the HTTP client, json.Marshal and its decoding, yaml.Unmarshal, the claims of a
-- token, the environment, time.ParseDuration, filepath.Dir and filepath.Join, the start of a process,
-- what `ip`, `route`, `networksetup` and `scutil` answer, and the identifiers, specs and answers of the
-- connect library. For the lines on the counters that library is taken to hand on one packet at a time.
--
-- Not modelled: the texts of log lines and usage descriptions, and what only does I/O: reads and writes
-- of the TUN device, the byte relays, the padding of printed tables; vpn_stub.go, which returns an
-- error.
pub mod Base
pub mod Text
pub mod Util
pub mod Config
pub mod Net
pub mod Open
pub mod Providers
pub mod Inbound
pub mod Dataplane
pub mod Socks
pub mod Specs
pub mod Routes
pub mod Jwt
pub mod Account
pub mod Startup
pub mod Http
pub mod Lifetime
pub mod Locations
pub mod Main
pub mod Session
pub mod Linux
pub mod Darwin
pub mod Logger
pub mod Process
pub mod Tests
