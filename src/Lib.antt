-- ===== src/Lib.antt =====
-- PortGuard, a port and reverse-proxy manager for nginx and HAProxy.
--
-- An administrator edits mappings (a listener with its targets) in a panel. A handler validates a
-- mapping and stores it; an apply renders the files of every engine from the stored mappings, has
-- the engine's binary test them, backs up the live files, writes the new ones, reloads the engines
-- and rolls back if that fails. Agents on nodes enforce bandwidth limits with the tc command. The
-- backups of configuration files are shown as diffs.
--
-- Base: what the modules share. Text is a list of code points with the functions of Go's strings
--   that the program calls; ℤ is for signed integers; Check is Go's error return; Map is a Go map as
--   an association list, ranged over in the order of the list; Decimal is strconv.ParseInt and %d.
-- Proxy: Model has the types of internal/store/models.go; Validate is ValidateMapping of
--   internal/proxy/engine.go in the order of its clauses (Names: the tests on names, Rules: the path
--   routes and route rules). net.ParseIP, net.ParseCIDR and the Unicode classes are fields of Lib.
-- Api: Mappings has handleCreateMapping, handleUpdateMapping and handleDeleteMapping of
--   internal/api/handlers.go and handleImport of internal/api/ops.go, with the statements of
--   internal/store/mappings.go as operations on the rows. The database is a parameter as far as it
--   chooses new identifiers and as statements fail.
--   Login has Allow, Fail and RequireRole of internal/api/auth.go.
-- Service: Apply is ApplyAll of internal/service/service.go. Host is its world: a disk, a count of
--   calls of the operating system, of which an arbitrary function says which fail, the audit log and
--   the version row. What an engine renders and accepts and whether it reloads are fields of Engine.
--   Prune is pruneBackups. Restore is Restore of internal/service/backups.go on the same disk: Collect
--   has the files that it sorts by engine, RolledBack its rollback, Compare is Diff.
-- Imports: the way back from live files to mappings. Haproxy is ParseHAProxyConfig of
--   internal/proxy/parser.go, a pass over the lines with the section it is in (Lines: the readers of one
--   line, Directives: the lines of each section), and Convert is HAProxyCfgToMappings; Nginx is
--   internal/proxy/nginxparser.go in the same way; Names is uniqueMappingName; Confirm is
--   internal/api/configimport.go. A pointer to the last element of a list is an update of that
--   element. Capitals outside ASCII keep their form where the source folds case.
-- Scanner: Scan of internal/scanner/scanner.go on the sockets found, Classify its table of services,
--   Ss the reading of the output of ss, Proc that of the tables of /proc/net. Sockets of one port and
--   protocol stand in one of the orders that Go may give them.
-- Ratelimit: Bandwidth and Plan are internal/ratelimit/ratelimit.go, Applier is
--   internal/ratelimit/applier.go. A product of int64 wraps around as in the source. The tc commands
--   are recorded, and an arbitrary function of the history says which succeed.
-- Health: Round, checkTarget and Summary of internal/health/health.go over the rows of the table
--   target_health, keyed by the text that the source makes of a mapping and an index. What the network
--   answers is the record Probe.
-- Alerts: fire, checkBackends and checkCerts of internal/alerter/alerter.go over the stored alerts.
-- Hub: internal/nodehub/hub.go as a state machine. A step is what one goroutine does between two
--   points at which others can run; Reachable is by induction on the steps.
-- Ops: Diff is diffOps with lcsTable of internal/ops/diff.go; a cell of the table is read by its
--   indices. Unified is UnifiedDiff.
-- Connections: internal/conntrack/conntrack.go, Collect to sample, with ReplaceConnections of
--   internal/store/mappings.go on the rows of the table. net.ParseIP is a parameter.
-- Runtime: internal/proxy/runtime.go, the commands that go to HAProxy's socket and the statistics
--   that come back. The answers of the socket and encoding/csv are parameters.
-- Render: Render of internal/proxy/haproxy.go, which writes haproxy.cfg; Rules has the renderers of
--   its parts, Pieces the functions on texts, Bind and Tls the line that Imports.Haproxy reads back.
--
-- Loops are structural recursion. Fuel occurs in two places: in the writing of numbers, where decimal
-- has one more than the number and hex has four digits for sixteen bits, and in uniqueMappingName,
-- where it is the number of taken names: more candidates than that cannot all be taken.
--
-- Not modelled: the renderer of nginx's files, the tunnels, the agents' transport, the channels
-- of the alerts, the walk of the scanner over /proc, session tokens, the listing of backups, and the
-- front end. SQL, the network, the live files and commands are inputs of the models above.
pub mod Base
pub mod Proxy
pub mod Api
pub mod Service
pub mod Ratelimit
pub mod Ops
pub mod Health
pub mod Hub
pub mod Imports
pub mod Scanner
pub mod Render
pub mod Connections
pub mod Runtime
pub mod Alerts
