-- ===== src/Lib.antt =====
-- IFA: read-only diagnostics for LLM inference workloads.
--
-- The program scrapes the metrics endpoints of inference servers into snapshots, keeps a bounded
-- history of snapshots for each workload, runs diagnostic rules over that history, and posts what
-- the rules find to a webhook, once for each change. This library models the core of that path and
-- proves what each part promises to the next.
--
-- Telemetry (internal/telemetry)
--   Telemetry/Metric.antt is metric.go: a measurement that may be absent, and its JSON forms.
--   Telemetry/Snapshot.antt is types.go: Snapshot, Severity, Evidence, Recommendation.
--   Telemetry/Store.antt is store.go: the record Store holds the map of histories and the bounds;
--   add, prune, latest, history, workloads, all_snapshots and size are the methods. Its children
--   Series, Retention and Queries have the lemmas on one series, the invariant, and the queries.
-- Promtext (internal/promtext)
--   Promtext/Words.antt has what parse.go calls of the packages strings and bufio, Labels.antt is
--   parseLabels and Matches, Sample.antt is parseSample, Families.antt has the type MetricFamilies
--   with Parse, Select, Sum and Max, and Quantile.antt has buckets, Quantile and SummaryQuantile.
-- Runtime (internal/runtime)
--   Runtime.antt has the type Reading of adapter.go and what the adapters share, Runtime/Vllm.antt,
--   Triton.antt and Dcgm.antt are the functions Parse of vllm.go, triton.go and dcgm.go:
--   read_payload and parse_devices.
-- Recommender (internal/recommender)
--   Recommender/Thresholds.antt is thresholds.go. Recommender/Eval.antt has the type Eval of
--   recommender.go with Span, recent, Sustained and Trend. Recommender/Rules/ has rules.go by
--   family of rules: Capacity, Cache, Latency, Efficiency, Errors, Scaling, Observability; Defs has
--   the types and helpers and Catalogue is DefaultRules. Recommender/Engine.antt has Engine.Rules,
--   analyzeWorkload and Analyze.
-- Alerting (internal/alerting)
--   Alerting/Payload.antt is payload.go. Alerting/Sender.antt, Delivery.antt and Url.antt are
--   sender.go: the record Sender holds the queue, the open findings and the counters; new_sender is
--   New, notify is Notify, deliver, serve and drain are deliver, run and the drain of Close.
-- Collector (internal/collector)
--   Collector/Rates.antt is rate.go. Collector/Target.antt has Target and New of collector.go, and
--   Collector/Scrape.antt has Scrape, applyRates, applyGPU, applyWorkloadContext, and the part of
--   scrapeOne that writes to the store, keep_scrape.
-- Storage (internal/storage/timescale)
--   Storage/Sink.antt is the queue and the writer of sink.go, Storage/Sink/Order.antt its runs.
-- Config (internal/config)
--   Config.antt has the types of config.go with the conversions, Config/Validation.antt is Validate and
--   Targets, Config/Loading.antt is Default and Load, Config/Dsn.antt is RedactDSN. The settings that a
--   configuration gives to the collector are those of cmd/control-plane.
-- Metrics (internal/metrics)
--   Metrics/Registry.antt is registry.go without Write: the record Registry holds the counters of each
--   target and severity, record_scrape, record_scrape_error, record_analysis and the set functions
--   are its methods. Metrics/Exposition.antt is Write, write_lines, with esc and fam.
-- Kubernetes (internal/k8s)
--   Kubernetes.antt is what watcher.go reads from its caches: workload_for, all_workloads and
--   replica_counts are workloadFor, All and Replicas. The record Caches stands for the listers of
--   client-go, and Deployment, Pod, Autoscaler and Container for the fields of their objects that
--   the watcher reads.
-- Api (internal/api)
--   Api.antt has the filters and handlers of server.go: parse_filter is parseFilter, the functions
--   handle_telemetry, handle_recommendations, handle_workloads and handle_readyz are the handlers
--   under getOnly, with the status and the payload that they write.
-- The parts meet as in cmd/ifa: an adapter parses a payload into a reading, the collector turns the
-- reading into a snapshot and adds it to the store, the store's Latest and History are the
-- arguments of Analyze, whose result is the argument of Notify. Prelude has the shared notation and
-- lemmas, Float the interface to floating-point numbers, and Checks runs the theorems on concrete
-- inputs.
--
-- Representation. Strings are lists of bytes where they are compared or cut, and opaque where they
-- are only shown. Instants and durations are integers in nanoseconds. The product of the sustain
-- window and the factor of a trend is reduced to 64 bits, as in Go, and the sum of restart counts
-- to 32 bits; the wrap-around of the differences of instants, at 292 years, is not modelled. Maps
-- are association lists, whose order stands for one order of `range`. A mutex makes a method one
-- step. A sort is insertion sort, which gives the one sorted list where no two elements are tied.
-- float64 is a type with the operations of the interface Float64; theorems that need more than the
-- operations name it, in Float/Laws.antt, and Float/Sample.antt has a type that satisfies it.
--
-- Fuel. sort.Search runs on as many rounds as there are elements, and each round halves what is left.
-- The drain of the sender runs on fuel, one unit for each payload that it takes, so the length of the
-- queue is enough. The loop over a label block runs on one round more than there are bytes, and each
-- round takes a byte at least. Every other loop is a recursion on its list, or on the two attempts of
-- a delivery.
--
-- Arguments of the model: what the HTTP endpoints and the database answer, the caches of client-
-- go, the file of the configuration as it is decoded, the environment, url.Parse,
-- strconv.ParseFloat, Atoi and Itoa, the numbers that fmt prints, what encoding/json does with a
-- float64, and the clock.
--
-- Not modelled: the text that is shown to people, logging, error texts, and the encoding of
-- payloads; white space and letters outside ASCII in a payload; the loops and warnings of the
-- collector, the SQL of the sink (internal/storage), the client and informers of the watcher
-- (internal/k8s), the routes, the legacy handlers and the JSON of the HTTP API (internal/api), the
-- handler of the self metrics (internal/metrics), the demo server (internal/demo) and the commands
-- (cmd).
pub mod Prelude
pub mod Float
pub mod Promtext
pub mod Runtime
pub mod Telemetry
pub mod Recommender
pub mod Alerting
pub mod Collector
pub mod Storage
pub mod Config
pub mod Metrics
pub mod Kubernetes
pub mod Api
pub mod Checks
