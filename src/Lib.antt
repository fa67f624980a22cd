-- ===== src/Lib.antt =====
-- A verification library for the operator of Kubescape: the in-cluster component that watches
-- workloads, SBOMs, application profiles and operator commands, has images, profiles and the cluster's
-- configuration scanned, and checks admission requests against bound rules.
--
-- The parts of the program and the modules about them (paths are from the repository's root):
--   * config/config.go: Config. The records of the configuration and the questions asked of it
--     (SkipNamespace, GuardTime, ValidateConfig).
--   * utils: Utils/Types (sessions, commands, pods and containers as far as they are read),
--     Utils/Images (ExtractImageID, PodToContainerData), Utils/Profile (SkipApplicationProfile and the
--     lookup for a relevancy scan) and Utils/Status (SetOperatorCommandStatus).
--   * watcher: Watcher/Cooldown (CooldownQueue), Watcher/Feeds (listPods and PodWatch), Watcher/Pod
--     (handlePodWatcher), Watcher/Retry (watchRetry), Watcher/Sbom (HandleSBOMEvents), Watcher/Profiles
--     (HandleApplicationProfileEvents), Watcher/Commands (CommandWatch, AddHandler),
--     Watcher/Commands/Run (Start, invokeCommand) and Watcher/Registry (RegistryCommandsHandler, with the
--     generators in Watcher/Registry/Objects).
--   * admission: Admission/Rules (descriptors, tags and the creator), Admission/Binding (RBCache),
--     Admission/Owner (ExtractPodOwner, GetControllerDetails), Admission/Webhook (ProcessEvent and
--     Validate), Admission/Server (handleWebhookValidate and notifyChanges, with Run in
--     Admission/Server/Restarts) and Admission/Exporter (the configuration and the limit on alerts).
--   * mainhandler: MainHandler/Requests (handleRequest, runCommand, getNamespaces), MainHandler/Scoped
--     (HandleScopedRequest), MainHandler/Images (HandleImageScanningScopedRequest),
--     MainHandler/ScanCommands and MainHandler/Scanner (vulnscan.go),
--     MainHandler/ScanRequests (kubescapehandlerhelper.go), MainHandler/Names (fixK8sNameLimit),
--     MainHandler/Schedules (the cron jobs of kubescapehandler.go and vulnscanhandler.go, with the
--     templates of cronjobhandler.go in MainHandler/Schedules/Templates) and MainHandler/Responses
--     (kubescapeScan, HandleKubescapeResponse, HandleCommandResponse), MainHandler/Credentials
--     (getImageScanConfig and imageregistryhandler.go) and MainHandler/RegistryScans
--     (scanRegistriesV2AndUpdateStatus).
--   * continuousscanning: ContinuousScanning/Targets (matchRuleToGVR, LoadGVRs),
--     ContinuousScanning/Watches (SelfHealingWatch and WatchPool) and
--     ContinuousScanning/Handlers (the two event handlers and the loop of work).
--   * restapihandler: RestApi (ActionRequest and HandleActionRequest).
--   * servicehandler: ServiceHandler (discoveryService, serviceScan, deleteServices).
--   * Cluster holds what the registry commands and the schedules share: the Kubernetes API as an
--     interface (Api), functions that call it and may fail or panic half-way, with rules for what they
--     keep and ensure (Cluster/Steps, Cluster/Effects), and the goroutines of an errgroup, interleaved
--     in any order at their calls (Cluster/Goroutines).
-- Base holds what these share: strings, association lists for Go maps, a result type for a value and an
-- error, list lemmas. Tests holds concrete inputs and the theorems at them.
--
-- How the parts interact: the watchers put events into a cooldown queue; what comes out of it
-- becomes commands for the pool, whose jobs MainHandler.Requests dispatches, as it does those of
-- the REST API; scoped image scans and the pod watcher share the lookup of profiles and the
-- commands; the webhook lists rules from the cache that the watcher of bindings fills, and sends
-- alerts through the exporter.
--
-- State is a record that each operation takes and returns. A Go error is a `Result`; a panic is an
-- outcome of its own (of the listing of rules, `none`). Concurrent calls of the cooldown queue are
-- explicit sequences of steps: its mutexes allow no finer overlap. A range over a Go map takes the order as an argument, so it holds for every order.
-- Times and durations are natural numbers of nanoseconds. Loops are structural recursion over what
-- they range over; the loop that posts to the scanner has its own bound of five retries.
--
-- Parameters stand for code outside the repository: the Kubernetes API and clients, the libraries that name
-- instances and workloads, JSON, the expiring cache, the HTTP client, label selectors and fresh
-- identifiers. The hypotheses on them are that two names of attributes differ, that two empty maps
-- are deeply equal, and the laws of two interfaces. `ExpiringCache`: a set is held
-- with its deadline, nothing else changes, and an eviction round removes entries whose deadline has
-- passed. `Api`: a call that reports no error was carried out, one that does was carried out or changed
-- nothing, no call touches another object, and what is not there cannot be deleted.
--
-- Not modelled: logging and tracing, reading files, TLS, HTTP, the ten goroutines that wait for the timers
-- of responses, the wait of a send on a full channel, the overlap of pods that timers hand over later
-- with the loop over events (their calls come one after the other here), and the wiring in main.go.
pub mod Admission
pub mod Base
pub mod Config
pub mod Cluster
pub mod ContinuousScanning
pub mod MainHandler
pub mod RestApi
pub mod ServiceHandler
pub mod Tests
pub mod Utils
pub mod Watcher
