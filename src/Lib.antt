-- ===== src/Lib.antt =====
-- Technician, a synthetic monitoring worker written in Go: it runs checks of services on a
-- schedule, keeps their recent history for a status page, compares them with performance budgets
-- and sends notifications.
--
-- The parts, and the files that model them:
-- - Config: internal/config. Config/Kind has `CheckType`, Config/Types the structs of a check's
--   configuration, Config/Yaml `checkYAML`, Config/Validate the validation of TLS versions and
--   assertions, Config/Cases and Config/Convert `convertCheck`, Config/Target `Target`,
--   `FindCheckByName` and the defaults of a check, Config/Load `LoadChecks` and
--   `ResolveChecksPath`, Config/Expand `expandEnvVars`, Config/Settings the defaults and the
--   validation of `Load`, Config/Origin origins, and Config/Filter filter.go with cmd/filter.go.
-- - Check: `Result` of internal/check/check.go with its thresholds, and checkers of
--   internal/check: Check/Bgp has bgp.go, Check/Http http.go (its clients and headers in
--   Check/Http/Requests), Check/Icmp icmp.go, Check/Tcp tcp.go, Check/Tls tls_cert.go,
--   Check/Domain domain_expiration.go, Check/Dns dns.go, Check/Udp udp.go, Check/Smtp smtp.go,
--   Check/Websocket websocket.go, Check/Grpc grpc.go with its pool of connections, Check/Ntp
--   ntp.go, and Check/Traceroute traceroute.go. Check/Fetch is what an HTTP query of a checker
--   can meet, Check/Days the days until an expiry, and Check/Report how a run ends.
-- - Scheduler: internal/scheduler. Scheduler/Retry has `RunWithRetry`, Scheduler/Stagger
--   `ComputeStagger`, Scheduler/Execute `execute` and the channel of results, and Scheduler/Loops
--   the registry and `Start`, with the goroutines that it starts as a step relation.
-- - Status: internal/status/store.go. Status/Ring has `checkRing` and Status/Store `Store`, with
--   `Push`, `Reconcile`, `RecordBudgetCheck` and `recordWriteResult`, and Status/Persistence the
--   value that `save` marshals and `tryLoadData` reads, with `Save`, the backups and `load` in
--   Status/Persistence/Files. Status/Snapshot has the statuses, the counts and the overall status
--   of `computeSnapshot`, Status/Figures the percentiles, the timings and the uptime, and
--   Status/Snapshot/Compute the whole of `computeSnapshot`, and Status/Cache `Snapshot`, which
--   keeps it for two seconds, with the steps of its callers apart. Status/Page is
--   internal/status/handler.go: its domains in Status/Page/Groups, its tabs in Status/Page/Tabs,
--   and `Handler` with `serveWithETag` in Status/Page/Serve.
-- - Budget: internal/budget/budget.go, the loading of budgets and the evaluation of a result.
-- - Notify: internal/notify/notify.go. Notify/Manager has `Manager` and `dispatch`,
--   Notify/Handlers the three handlers of results, budgets and certificates, and Notify/Delivery
--   the goroutines that send.
-- - History: internal/history/history.go, the channel, the batches and the table of the long-term
--   history.
-- - Metrics: internal/metrics/prometheus.go. Metrics/Gauges has the gauges with their labels,
--   Metrics/Series what a recorded result writes, and Metrics the guard and `RecordResult`.
--   Metrics/Har is internal/metrics/har.go, the parsing of a HAR file.
-- - Remote: internal/remotewrite/remotewrite.go. Remote has the encoding of a write request,
--   Remote/Writer `New` and `push`; Remote/Decode and Remote/RoundTrip read a request again.
-- - Worker: the loop of cmd/worker.go that drains the scheduler's results into the store, the
--   notifications and the budgets, the loop that persists the store, and `/health`.
-- - Common: shared tests, lists, maps, text, and numbers; Common/Grouping has the groups that
--   keep the order of their first members, and Common/Duration the arithmetic of time.Duration.
--   Tests: the theorems at concrete inputs.
--
-- How the code is read. A method on a locked struct is one step, a function from the state to the
-- state and the result. A struct is a record with the source's fields. A Go map is an association
-- list, whose order stands for the order of `range`, which Go leaves open. Text is a list of
-- bytes, ASCII where the code folds or trims it. An instant or a duration is a number of
-- nanoseconds, and 0 stands for Go's zero time. Go's `int` is an integer without a bound, except
-- for the delays of the retries, the durations of the NTP checker and the bytes of a HAR file,
-- which are signed and wrap at 64 bits, and the hash, which wraps at 32. float64 is a type with
-- the operations that the program uses and no laws; `whole`, its instance at the natural numbers,
-- is for runs. Loops recurse on their list or on the number of rounds that are left
-- (`retry_loop`, which has as many as the policy has retries, and `receive_loop`, which has one
-- more than the limit of its bytes), and `decimal` on one more than its argument, which is more
-- than the digits.
--
-- A checker is a function of the network's answers, each of them a value of a data type, to a
-- result; the loops that read packets recurse on the packets that arrive before the deadline.
--
-- Parameters. `probe` is what a checker's runs return, `cancelled` when the context is done,
-- `format_date` is Go's formatting of a date, and `Platform` holds the functions of Go's standard
-- library for URLs, prefixes, patterns, paths and hosts; `quote` is `%q`, `can_make` whether the
-- runtime makes a slice of some size, `live` what marshalling reads of slices that are still in
-- use, `compile` is `regexp.Compile`, `canonical` and `basic` are those of net/http for headers,
-- and `Sockets`, `Connection`, `Network` and `Resolver` are what the network does for a checker.
-- `Wire` is what protowire appends, and `Endpoint`, `Server`, `Peer` and `Socket` what a peer
-- does. `Os`, `Json` and `Files` are the file system and the encodings of files; `IsPosix` and
-- `IsRemovable` are what the theorems on files rely on.
--
-- Not modelled: the Playwright checker, the budget reports, the tracing, the artifacts, the
-- Blackbox exporter and the compression of answers; the payloads of webhooks and the goroutines
-- that send them; the start-up of the commands and the command line; JSON and YAML texts, the
-- template of the page, the texts of the errors of loading, and the logs.
pub mod Common
pub mod Config
pub mod Check
pub mod Status
pub mod Notify
pub mod Budget
pub mod Scheduler
pub mod History
pub mod Metrics
pub mod Remote
pub mod Worker
pub mod Tests
