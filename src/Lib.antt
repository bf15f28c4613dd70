-- ===== src/Lib.antt =====
-- The utilization and rightsizing analyzer: an agent that samples a server and detects spikes, and
-- an offline analyzer that turns the telemetry of many servers into recommendations.
--
-- The agent samples the host (internal/sampler) and condenses the samples of a minute. It feeds one
-- observation of all its series to the spike detector (internal/spike), which keeps a state per series
-- and hands over an event once it is fully captured; the event is attributed to a process
-- (internal/agent/attribution.go), with the schedules of the host (internal/sched). The configuration
-- (internal/config) gives the detector its rules and times. The agent writes its records to a spool
-- (internal/store) of segments, one active file per kind, which are closed, exported in an encrypted
-- bundle (internal/bundle) and in the end deleted. The analyzer imports the bundles of many hosts
-- (internal/analyzer/dataset.go), computes statistics (internal/analyzer/stats) of the minutes of each
-- host and classifies the host from them (internal/analyzer/recommend.go), with the patterns that it
-- finds in the host's spikes (internal/analyzer/recurrence.go), classifies each instance of SQL Server
-- (internal/analyzer/recommend_sql.go), and consolidates all that into one report
-- (internal/analyzer/analyzer.go). The parts share the records of internal/model.
--
-- Files:
--   Prelude, Prelude/*   lists, options and tests over native numbers, integers, association lists
--   Float64              Go's float64 as a parameter: its operations, the laws that a theorem names
--                        where it needs them, and fixed-point amounts for runs at concrete inputs
--   Model, Model/*       internal/model/model.go
--   Config, Config/*     internal/config/config.go: `validate` is Validate, `default` is Default
--   Quantile             Quantile of internal/analyzer/stats/stats.go and quantileSorted of
--                        internal/spike/spike.go, which are the same function
--   Spike, Spike/*       internal/spike/spike.go: `SpikeDetector` is Detector, `SeriesState` is
--                        seriesState; `step` is split as the code branches, into `update_baseline`,
--                        `step_idle`, `step_during` and `step_post`, and returns the state, the count of
--                        open events and a completed event
--   Sampler, Sampler/*   internal/sampler/sampler.go: `sample` is Sample with what every probe gives as
--                        an input, `add` and `flush_partial` are Add and FlushPartial, `emit` is emit
--   Analyzer/Stats       internal/analyzer/stats/stats.go: `sustained` is Sustained, a scan with the
--                        loop's variables as its state
--   Analyzer/Report      internal/analyzer/recommend.go: the report on a host and its texts
--   Analyzer/Recommend   internal/analyzer/recommend.go: `classify_host` is classifyHost, its switch is
--                        `ladder`, whose later cases are `load_ladder`
--   Analyzer/Host        internal/analyzer/recommend.go: `analyze_host` of Analysis is analyzeHost,
--                        `gather` its loop over the minutes
--   Analyzer/Sql         internal/analyzer/recommend_sql.go: `analyze_sql_instance` of Instance is
--                        analyzeSQLInstance, `classify_sql` of Classify is classifySQL, whose switch is
--                        `sql_ladder` with `pressure_ladder` and `cache_ladder` for its later cases
--   Analyzer/Recurrence  internal/analyzer/recurrence.go: `detect_patterns` is DetectPatterns, with
--                        `clusters` for its loop over the flags
--   Analyzer/Dataset     internal/analyzer/dataset.go: `load_bundles` is LoadBundles over what the import
--                        of each file gives, `normalize` is normalize
--   Analyzer/Build       internal/analyzer/analyzer.go: `build` of Fleet is Build, `spike_entry` of
--                        Entries spikeEntry, `build_ha_groups` of Groups buildHAGroups
--   Store, Store/*       internal/store/store.go: `Segments` has flushLocked, rotateLocked and closeFile,
--                        `Appending` has Append, `Everything` Flush and Rotate, `Retention` ListClosed,
--                        Remove and EnforceRetention; the outcome of each group of file operations is
--                        an argument, and the files are part of the state
--   Bundle, Bundle/*     internal/bundle/bundle.go: `export_rotated` is Export, `import_bundle` is Import;
--                        `Reader` is ReadSegment of internal/store/store.go. The encryption, SHA-256, tar,
--                        gzip and JSON are a record of operations, and what a theorem needs of them a
--                        hypothesis
--   Agent/Health         internal/agent/health.go: `HealthTracker` is healthTracker, `issue` is Issue,
--                        `ok` is OK, and `contains_fold` is containsFold, over lists of bytes
--   Agent/Attribution    internal/agent/attribution.go: `attribute` is attribute, with `rank_processes` of
--                        Ranking and `match_schedule` of Schedules
--   Sched, Sched/*       internal/sched/sched.go: `matches_time` is MatchesTime, `cron_field_match` is
--                        cronFieldMatch, over the codes of the characters
--
-- An index out of range, which panics in Go, is `none`, and so is a division of durations by zero. A
-- time is a number of nanoseconds, 0 the zero time. Maps are association lists in the order in which
-- Go ranges over them. Random event ids are an argument. Texts that package fmt formats are data, with
-- the arguments of the format, or a parameter. Nearly every loop is structural recursion. The search
-- for a free sequence number runs on fuel one above the numbers in use, which is enough; where every
-- call of os.Stat in it is denied, the source goes on without end and the result is `none`. An error of
-- os.Stat that passes, so that the search leaves out a number, is not modelled. The clusters
-- of a group run on the number of its events, which is enough; the offsets of MatchesTime run on one
-- more than the minutes of its window, which is enough. Counts, Go's int, are natural numbers where the
-- code never makes them negative; allocated CPUs, durations and limits that Validate reads are
-- integers. The active file of a kind is the records of its whole members and whether a write that
-- ended early left a torn one among them.
--
-- Not modelled: reading the operating system and SQL Server, the list of processes, files,
-- encryption, encodings of records, the rendering of reports, and the concurrency of the agent's
-- loops. The recovery of a spool is left out as well.
pub mod Prelude
pub mod Float64
pub mod Model
pub mod Config
pub mod Quantile
pub mod Spike
pub mod Analyzer
pub mod Store
pub mod Sampler
pub mod Bundle
pub mod Agent
pub mod Sched
