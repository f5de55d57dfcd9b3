-- ===== src/Lib.antt =====
-- A model of outline-gate, a split-tunnel gateway, and proofs of what its components do.
--
-- Parts of the program and the files that model them:
-- * internal/connlog/store.go, the connection log, in Connlog: `Store` is a ring of at most `cap` events
--   with a time to live, and fans each event out to channels. Connlog.Types has its data,
--   Connlog.Methods its methods (`Record` is `record_event`, `pruneLocked` is `prune`, `Subscribe` is
--   `subscribe`, and its closure `unsubscribe`). Connlog.Ring, Valid and Session hold the arithmetic of
--   the ring, the invariant and the runs of calls; History, Order and Reads compare the store with the
--   history of all events.
-- * internal/routing/routing.go, the choice of a path for an address, in Routing (`Decide` is `decide`,
--   `BypassNets` is `bypass_nets`); it reads the fields of the configuration in Config.
--   Routing.Decision and Routing.Sets reason about it.
-- * internal/tunnel/mux.go, the switch between the Outline and the Amnezia transport, in Tunnel.
-- * internal/bypass/rule.go, internal/bypass/matcher.go and internal/bypass/store.go, the user's rules of
--   what bypasses the tunnel: Bypass.Rule parses a rule, Bypass.Matcher looks for the rule of a
--   destination, Bypass.RulesFile reads and writes the text of a file, Bypass.Disk is the file system as
--   `persistLocked` uses it, and Bypass.Store has the methods (`Set` is `set_rules`).
-- * internal/bypass/manager.go, the owner of one such store, in Bypass.Manager: it keeps the matcher and
--   the nets that names resolve to, and calls back when these change (`AddRule` is `add_rule`, `SetRules`
--   is `replace_rules`). Its effective nets end up in the `bypass` field of the routing engine.
--   Bypass.Manager.Effective compares them with its answers.
-- * internal/proxy/path_decider.go, the path of a destination of the transparent proxy, in Proxy: it asks
--   a block list, then the routing engine (`DecidePath` is `decide_path`).
-- * internal/proxy/socks5.go, internal/proxy/http_connect.go and internal/proxy/transparent.go, one
--   connection of each proxy, in Proxy.Conn (what they share: block list, bypass, dial, event),
--   Proxy.Socks, Proxy.Http and Proxy.Transparent. A handler (`handle`) is a function from what the client
--   sends, and from what dialers and system calls answer, to the list of what it does: answers, dials,
--   events and the relay. A name in a SOCKS5 request is bytes, each taken as a character. The parser of
--   HTTP (`http.ReadRequest`) is a parameter. Requests and Outcomes reason about the handshake, Policy
--   and Destination about redirected connections.
-- * internal/gateway/gateway.go, the nftables rules, in Gateway: Script has the texts that nft is given,
--   line by line, Control the controller (`Apply` is `apply`, `Flush` is `flush`, `UpdateEngine` is
--   `update_engine`) over a record of the runs of nft, whose answers are an argument. Elements and InPlace
--   reason about these.
-- * internal/amnezia/conf.go, the configuration of the second transport, in Amnezia: Conf parses the
--   document (`ParseConf` is `parse_conf`), Uapi writes the text for the device (`UAPISet` is `uapi_set`);
--   Conf.Documents relates the parser to what a document says.
-- * internal/amnezia/client.go, the client of the userspace daemon, in Amnezia.Client (`Up` is `up`, `Down`
--   is `down`): the client, and a `Machine` with the time and with the commands so far. Routes pins the
--   route to the server and probes, Socket speaks the daemon's text protocol, Log is the log writer,
--   Waits the two loops that poll, and Up the bring-up as a list of steps, of which Up.Steps holds what
--   they keep, and Up.Swept what `Down` undoes in the system. What the system answers is an
--   argument, by the time of the call. Up.Ends and Up.Local reason about the bring-up.
-- * internal/webui, the web interface, in Web: its interfaces are records of operations on a state of any
--   type, a handler is a function from a request and the state. Auth has the token, Rules, Handlers and
--   Connections the handlers, Index the page, and Mount the registered patterns; which pattern a path
--   selects is a parameter. Mount.Guarded reasons about requests without the token, and Mount.Kept about what
--   the handlers keep of the state behind them.
-- * cmd/outline-gate/main.go in App: `Process` has the variables of `run`, Boot its start up to the
--   gateway, Actions the switch of the backend, the restart, the reload and the shutdown. It composes
--   the models above: a call of the manager is followed by the calls of `OnChange` that it made, each of
--   which builds the engine and gives it to the gateway. Agrees, Coupled and Reload reason about it.
--   Serve is the server of the web interface on that state, with `ClientOutline`; Serve.Kept has its
--   requests.
-- * internal/config/config.go and internal/config/key.go in Config: Types has the configuration and its
--   defaults, Nets networks as text, AccessKey the key and its file (`loadAccessKey` is
--   `load_access_key`), Validate the checks and what they fill in, Environment the variables
--   (`LoadFromEnv` is `load_from_env`), Backend the file of the chosen backend and the redacted key. The environment, the files and `time.ParseDuration` are arguments.
-- * internal/outline/client.go, the client of the Outline tunnel, in Outline (`Connect` is `connect`,
--   `noteTunnelFailure` is `note_tunnel_failure`); Outline.Ready has its invariant.
--   Outline.Maintain is one turn of the loop of `MaintainReady`, at a time and with the client as it is
--   then; Outline.Maintain.Pace bounds its waits. internal/outline/ssconf.go, the expansion of a key that
--   names a document, is in Outline.Ssconf (`ExpandAccessKey` is `expand_access_key`); the URL, the GET and
--   JSON are the parameter `Web`.
-- * internal/dnsdoh/server.go, the DNS service, in Dns, and internal/metrics/metrics.go, the counters, in
--   Metrics. Dns.Answers and Metrics.Totals reason about these.
-- * Go models what these files use of Go's library: package net (addresses, nets, their texts) as lists of
--   bytes, package strings on lists of code points, base64 and the quoting of `%q`. Strings that are not
--   valid UTF-8 are outside the model. The tables of package unicode are the parameter `Unicode`, a record with the laws that the
--   proofs need of letters, digits and lower case; `ascii` is an instance of it.
-- * Prelude holds lists, options, tests and results; Tests has runs on concrete inputs.
--
-- How state is modelled: a method takes the receiver and gives the new one. Methods that hold a mutex
-- are atomic, so concurrent callers are a sequence of calls (Connlog.Session, Bypass.Store.Session).
-- The methods of the bypass manager hold no lock from the change of the store to the end:
-- Bypass.Manager has them as single steps, which is right for calls that do not overlap; the same
-- holds of the requests and events of App, and of the calls of Outline.Ready. The clock is an
-- argument. A Go panic of Connlog (a send on a closed channel, a slice bound out of range) is `none`,
-- an error is a value of a data type with one constructor for each message, or its text where the
-- program looks at that (Gateway). A nil receiver has no counterpart. Channels are values with what
-- waits in them. Numbers are natural; identifiers wrap around at 2 ^ 64. Every loop of the program is
-- a recursion on a list or on text; the loop of `MaintainReady` has no end, and is a list of turns.
-- The digits of a number, in Go.IpString, are printed on fuel: 20 decimal digits, enough for 64 bits,
-- and 4 hexadecimal ones for a group of 16 bits. The loops that wait in `Up` have a fuel of 162 and 52
-- turns: 8 s hold 160 pauses of 50 ms, and 20 s hold 50 of 400 ms; that this is enough is a part of
-- what is shown. Which calls of package os fail is an argument (`Faults`), and `Disk` records what the
-- rules file held after each call.
--
-- Not modelled: the accept loops, time-outs and relays of the proxies and of the DNS service,
-- `DecodeVPNURI` (zlib and JSON), `AccessKeyEndpoint`, which only asks net/url, health, the text of the
-- metrics and the listeners and goroutines of main, which are mostly input and output around these parts.
-- Of the web interface, the subscription of the event stream and the embedded files are left out; of main, the wait for the tunnel in front of the loop that applies the gateway's rules.
pub mod Prelude
pub mod Go
pub mod Connlog
pub mod Config
pub mod Routing
pub mod Tunnel
pub mod Bypass
pub mod Proxy
pub mod Amnezia
pub mod Gateway
pub mod Dns
pub mod Metrics
pub mod Outline
pub mod Web
pub mod App
pub mod Tests
