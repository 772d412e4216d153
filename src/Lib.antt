-- ===== src/Lib.antt =====
-- nett is a reconnaissance tool: a scan resolves names with its own DNS resolver, keeps to a scope of
-- hosts, addresses and URLs, scans ports, and is set up by a configuration and a command line. This
-- library models the parts that decide what nett does, and proves them correct.
--
-- The parts and their files:
--
-- Prelude (Tests, Lists, Results) has the Boolean tests on the native numbers, lists, and `Result`,
-- the type of code that can fail, with `Ensures`: what holds of a result's error and of its value.
-- Text (Split, Affixes, Decimal, Order) has the functions of Go's strings and strconv packages that nett
-- calls, on lists of bytes, with the case and the white space of ASCII. Net has what nett takes from
-- Go's net and net/url: the parsers and printers of addresses, networks and URLs are a parameter, the
-- record `Net`, and `IsNet` is the documented law that ParseIP reads what String prints.
--
-- Dns models internal/dns. Dns/Message, Dns/RrType and Dns/Rcode are message.go. Dns/Buffer, Dns/Name,
-- Dns/Record and Dns/Wire are wire.go: `byte_at` and `slice` give the error `panic` where Go would
-- panic, so that the safety theorems say that no index is out of range. The loop of `readName` is
-- `read_loop`, with fuel 129 * (length of the buffer + 1): each round goes on in the buffer, or is one
-- of at most 128 jumps, so that the fuel is enough (Dns/Name/Safe). Dns/Resolver (Exchange, Cache,
-- Lookups) is resolver.go. The clock, the rate limiter, the random numbers, the transports and the
-- context are a parameter, the record `World`, whose functions get the number of the calls before.
--
-- Scope models internal/scope/scope.go. Each method is a function of the state `Scope`; the mutex makes
-- it one step. Scope/Pattern is globToRegexp and the match of what it compiles, Scope/Globs what a
-- pattern means, Scope/Hosts what AllowHost accepts, Scope/Order, Scope/Rules and Scope/Changes how rules
-- change what is allowed, Scope/Runtime the sequences of calls while a scan runs, and Scope/Gained the
-- addresses that they bring.
--
-- Ports is internal/portscan/ports.go, and Scanner (Outcomes) is scanner.go beside it: the dialer, the rate
-- limiter and what errors.As and errors.Is find are the record `Dialer` and its errors. Workerpool is
-- internal/workerpool/pool.go, through which the scanner and the discovery make their calls: `Step` is a
-- step relation with a state for the goroutine of `Run` and the items of the others, and a call of the
-- item function may return at any time. Workerpool/Invariant is the invariant of the pool,
-- Workerpool/Calls the calls that it makes, Workerpool/Progress its end. A client of the pool takes the
-- order in which the calls end as a function from the items to the items.
--
-- Model is internal/model/model.go: the structs, the names of the kinds in Model/AssetType and
-- Model/RelType, the identities over a hash that is a parameter, and in Model/Values a map[string]any as
-- the list of its entries. Store models internal/store. Store/Tables is what it uses of SQLite: the
-- record `Table` of statements, and `IsTable`, the documented laws of those that return no error.
-- Store/Rows has the rows of schema.go, the texts of their columns over the record `Texts` of times and
-- JSON, and the record `Database`. Store/Merge is mergeValue and unionAny, Store/Projects, Store/Assets
-- and Store/Edges the methods of store.go and edges.go, Store/Events and Store/Runs those of events.go,
-- and Store/Trail is provenance.go. The modules below them state what the methods do for the graph:
-- Store/Joined and Store/Additive for the merge, Store/Assets/Observed, Store/Edges/Kept,
-- Store/Events/Once and Store/Runs/Resumed. A time is the number of nanoseconds since the zero time, and
-- each method gets the time of its call.
--
-- Dns/Wildcard (Probes) is internal/dns/wildcard.go. Permute (Candidates, Found, Learned) is
-- internal/permute/permute.go, Subdomain (Candidates, Sources, Once, Calls, Found) is
-- internal/subdomain/subdomain.go, and Ct (Names) is internal/ct/crtsh.go. What the outside answers is the record `Probing` of random bytes and lookups,
-- and the record `Http`. sort.Strings is Text/Order.
--
-- Config (Env, Validate, Valid, Load) is internal/config/config.go; a float64 is a value of any type with
-- the operations of the record `Floats`, and files, the environment and the JSON decoder are the record
-- `Source`. Modules is the registry of internal/module/registry.go: Views has its views of the implemented
-- modules, Listing, Shown and Reported what the views show, and Catalog the modules of catalog.go.
--
-- Cli models internal/cli. Cli/ScanArgs (Accepts, Switches, Asked) is parseScanArgs of scan.go, a loop
-- over the arguments with a state for a flag that waits for its value; Cli/Persist, Cli/PortScan (Guard) and Cli/Scan are the
-- functions of scan.go that run a scan, without what they print. Cli/App (Dispatch) is `Execute` of app.go
-- with the table of commands.go.
--
-- How they interact: the resolver writes and reads messages through the codec, behind the transports;
-- `Config` gives the resolver its settings and the scope its rules; `Execute` loads it and runs a
-- command; a scan builds the scope, discovers and permutes names inside it, scans the ports that Ports
-- reads of the command line, and keeps what it finds in the store.
--
-- The counters of Go's int (the round robin, offsets) are numbers with no upper bound, as no run
-- reaches 2^63; the timeout of the scanner is computed in 64 bits. Not modelled: the transports and the
-- rate limiter, which are input, output and clocks; the opening of the database, which is SQL alone;
-- logging; the commands that only print, and all printing.
pub mod Prelude
pub mod Text
pub mod Net
pub mod Dns
pub mod Scope
pub mod Ports
pub mod Cli
pub mod Config
pub mod Modules
pub mod Model
pub mod Store
pub mod Workerpool
pub mod Permute
pub mod Ct
pub mod Subdomain
pub mod Scanner
