-- ===== src/Lib.antt =====
-- Steam Download Pumper: the accounting and the scheduling of a fleet of PPPoE accounts.
--
-- The fleet program (steam_pumper/fleet.py) downloads on behalf of up to 256 accounts, so that each
-- account's download keeps a ratio to its upload. `FleetStore` books what SNMP samples and engines
-- report into a ledger by minute; `FleetController` reads the rolling sums of the ledger to choose
-- which accounts run, starts and stops their engines, and books what the engines download. The
-- store and the controller share one lock, so each operation below is one step.
--
-- Both programs take their sources from a list that the publisher (source_publisher/) signs and puts
-- into a bucket once a day: it probes the candidates, builds a payload, uploads it as a release and
-- as latest.json, and reads both back. A worker of each program refreshes the list
-- (steam_pumper/remote_sources.py) and keeps the last one that it accepted, in a file. The two ends
-- share no code: `build_payload` on one side and `parse_manifest_payload` on the other meet in
-- Publisher/Manifest/Consumed.
--
-- Which file models which part:
--   Common            lists measured by native numbers, texts, dicts and results; no source file
--   Fleet/Strings     what `parse_accounts_csv` uses of `str` and `ipaddress`
--   Fleet/Clock       instants, minutes and the clock of Shanghai
--   Fleet/Floats      the float expressions of steam_pumper/fleet.py, as a parameter
--   Fleet/Config      `FleetConfig` of steam_pumper/config.py and its `validate`
--   Fleet/Accounts    `FleetAccount`, `parse_accounts_csv`
--   Fleet/Store/Rows  the tables of `FleetStore` and the statements on them
--   Fleet/Store/Intervals, Fleet/Store/Business, Fleet/Store/Rates
--                     `_add_interval_traffic`, `_business_seconds`, `_estimated_bytes`,
--                     `_recent_measured_rate`, `_record_estimated_gap`
--   Fleet/Store/Snmp  `record_snmp` with `_save_cursor` and `_save_missing_cursor`
--   Fleet/Store/Totals  `rolling`, `today`, `_totals_since` and the other queries
--   Fleet/Controller/State, Health, Schedule, Engines
--                     the state of `FleetController` with `_start`, `_stop`, `_quarantine`,
--                     `set_manual_enabled`, `import_accounts_csv`; `_line_health_failure`;
--                     `_schedule` with `_priority` and `_desired_count`; `_poll_engines`
--   Fleet/Controller/Tick
--                     `tick` and `_consume_snmp_result`
--   Lines/Targets     `allocate_targets` and `lines` of steam_pumper/topology.py
--   Lines/Window      `is_within_window` of steam_pumper/config.py, `theoretical_window_bytes` of
--                     steam_pumper/metrics.py
--   Lines/Metrics     `ThroughputTracker` and `next_connection_count` of steam_pumper/metrics.py
--   Lines/Engine      `EngineProcess` of steam_pumper/engine.py
--   Lines/Staging     `set_sources` and `stage_sources` of steam_pumper/engine.py
--   Lines/Config      `validate_common` and the checks it calls, of steam_pumper/config.py
--   Lines/Control     the on and off of `PumperController` of steam_pumper/controller.py
--   Publisher/Due     `next_due`, `retry_delay`, `health_is_healthy` of
--                     source_publisher/scheduler.py
--   Publisher/Loop    `run_scheduler` of source_publisher/scheduler.py
--   Remote/Url, Remote/Payload
--                     `_normalize_source_url` and `parse_manifest_payload` of
--                     steam_pumper/remote_sources.py; Remote/Document has their input
--   Remote/Envelope   `_fetch_envelope` and `_verify_envelope` of steam_pumper/remote_sources.py
--   Remote/Manager    `RemoteSourceManager` of steam_pumper/remote_sources.py, with `refresh` in
--                     Remote/Manager/Refresh and `load_last_known_good` in Remote/Manager/Load
--   Remote/Worker     `RemoteSourceRefreshWorker` of steam_pumper/remote_sources.py
--   Publisher/Manifest
--                     `build_payload` of source_publisher/manifest.py
--   Publisher/Service
--                     `PublicationService.run` of source_publisher/service.py
--   Publisher/Bucket  what `upload` of source_publisher/oss.py does to the bucket
--   Publisher/Candidates
--                     `load_candidates` and `resolve_public_ipv4` of source_publisher/candidates.py
--   Publisher/Probe   `_probe_once` and `_validated_addresses` of source_publisher/probe.py
--   Lines/Sources     how `PumperController` takes a refreshed list of sources
-- The modules below one of these hold what is shown of it. Names are those of the source, without
-- the leading underscore of a private method.
--
-- How the program is read:
--   * An instant is a number of microseconds, the resolution of `datetime`. Asia/Shanghai is UTC+8.
--   * Python's floats are a parameter, `FloatArith`, with a field for each expression over floats.
--     Where a statement needs it, `IsProportional` says that the shares of a value over spans that
--     fit into the whole do not exceed the value. Fleet/Tests has exact arithmetic that satisfies it.
--     Doubles fail it for some values above 2^53. The remainder that the source takes off is a signed
--     number, so that its last share makes up for it; the remainder of the model stops at 0.
--   * An SQL table is a list of rows, and an upsert rewrites the row of its key. A transaction is
--     one function. A Python dict is an association list in the order of insertion, and the set of
--     selected ids is a list without repetition.
--   * The `csv` reader, the state that an engine reports and the state in which a new engine is left
--     are parameters, as functions.
--   * Counters of SNMP are numbers without an upper bound, as Python's are.
--   * JSON values, split URLs and addresses are data types, and `urlsplit`, `ip_address`, `isoformat`,
--     the server, the verifier program and the resolver are parameters. How a write or a call ends
--     is an argument, with the end that raises after its effect.
--   * Log lines and texts for people are left out.
--
-- Bounds and fuel: the loop of `_add_interval_traffic` has a round for each minute that the interval
-- touches, that of `_business_seconds` one for each day; both are shown to be enough by what the
-- loops give. An inventory has at most 256 accounts, a payload at most 1 MiB, a line at most 400
-- samples, and 20 lines run at most. A list has at most 100 sources and a file of candidates 200. A
-- probe has a round for the first request and for each of three redirects.
--
-- Not modelled: sockets, subprocesses, HTTP and its pages, signatures, ossutil, the threads of the
-- probes, the migration of an old database, the Go programs below cmd/, and the parts of
-- steam_pumper/ and source_publisher/ that the list above does not name.
pub mod Common
pub mod Fleet
pub mod Lines
pub mod Publisher
pub mod Remote
