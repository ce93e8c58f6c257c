-- ===== src/Lib.antt =====
-- The load balancer controller keeps HAProxy in step with a metadata service: a controller builds a
-- configuration from the metadata, a provider writes it and reloads HAProxy, and drain events take
-- single servers out of service and give them their weight back. This library models the parts that
-- decide, and proves what they keep.
--
-- The parts and where they come from (paths from the root of the repository):
--   * Base: texts as lists of bytes with the functions of Go's strings and strconv that the code
--     calls, maps as association lists, results with an error.
--   * Config (config/config.go): the configuration types, and the three Less methods in
--     Config.Order.
--   * Drain (provider/haproxy/drain_recovery.go, provider/haproxy/haproxy.go): the drain manager.
--     Drain.State is drainMgr; Drain.Runtime the commands on HAProxy's socket (runCommand, setWeight,
--     readPid); Drain.Desired is setDesired; Drain.Servers is readServerStates and setWeightVerified;
--     Drain.Mark is drainEndpoint; Drain.Reconcile is reconcileDrains; Drain.Stats is ReadStats,
--     readCurrentStats and olderPidExists; Drain.Endpoints is the drain list with
--     AddEndpointForDrain, RemoveEndpointFromDrain, DrainEndpoint and IsEndpointDrained. The modules
--     below them hold the proofs.
--   * Provider (provider/haproxy/haproxy.go): Provider.Selection is the data that
--     haproxyConfig.write hands to the template; Provider.Apply is applyHaproxyConfig, ApplyConfig
--     and the timer of Run. Provider.Custom (provider/haproxy/haproxy_config_util.go) is
--     BuildCustomConfig: Custom.Defaults is GetDefaultConfig and confToString, Custom.Parse the loop
--     over the lines of the custom text, Custom.Write what is written into frontends, backends and
--     endpoints.
--   * TaskQueue (utils/utils.go): the queue, and in TaskQueue.Steps its worker and callers as steps.
--   * Locks (internal/locks/locks.go): the goroutine that serves key locks.
--   * Events (internal/events/worker.go, controller/rancher/rancher_events_handler.go): Events.Work is
--     doWork, Events.Pool and Events.Blocking the two worker pools as steps, Events.Drains the handler
--     of drain events over the interface Drainer, which Events.Drains.Provided fills with the provider.
--     Events.Listener is the router's subscription, its loop over messages, the wait of
--     internal/events/util.go and the pong timer; Events.Registration is
--     internal/events/external_handler.go.
--   * Selector (controller/rancher/selector_util.go): label selectors; a selector is
--     read rune by rune, as range does it.
--   * LogSafety (utils/log_safety.go): SanitizeLogText.
--   * Metadata (internal/metadata/types.go, internal/metadata/client.go): the metadata that the
--     controller reads, and the client's lookups; Metadata.Client is newHTTPClient, endpoint and
--     sendRequest with the redirects, Metadata.Accessors what the accessors ask for and decode, which
--     fills the interface Metadata over HTTP, Metadata.Waiting waitForConnection and OnChangeWithError.
--   * ApiClient (internal/rancherclient/v2/common.go): ApiClient.Url is originParts; ApiClient.Origin
--     NormalizeUrl, newRequestOrigin, resolve and newRequest; ApiClient.Redirects the client that
--     newHTTPClient makes; ApiClient.Resources the calls doList to doAction, of which a plan says what
--     is asked for and perform asks; ApiClient.Allowed the operations as one type; ApiClient.Socket is
--     Websocket, ApiClient.Setup setupRancherBaseClient.
--   * Controller (controller/rancher/rancher.go): Controller.Links is GetService and getServiceName;
--     Controller.Endpoints the endpoints of services and containers; Controller.Rules is
--     processSelector; Controller.Build is the body of BuildConfigFromMetadata's loop on its maps, and
--     Controller.Build.Whole the function with its lookups, and GetLBConfigs; Controller.Sync is sync,
--     requeue and Stop; Controller.Sorting is sort.Sort. Controller.Certificates
--     (controller/rancher/certificate_fetcher.go) is the certificate fetcher: Paths has the functions
--     of path/filepath that it calls and pathIsWithinRoot, Read the reading of a directory with the
--     check of links, Poll pollCertificateDirectories and LookForCertUpdates, Fetch FetchCertificates,
--     UpdateEndpoints and the paging.
--   * Startup (controller/controller.go, provider/provider.go, main.go, healthcheck.go,
--     internal/logserver/server.go): the registries, the choice of controller and provider, the exit
--     code, and the answers of the health check and of the log-level endpoint.
--   * Tests: concrete inputs.
--
-- How state and operations correspond. A struct is a record with the fields that the code reads, an
-- operation is a function from the state before to the state after, with its result, and a failure is
-- a value. What the code reads from outside is a parameter: Env is HAProxy's socket, the pid file,
-- pidof and /proc, and its answers may depend on all the commands sent before; Disk is the file system
-- and the reload; Drainer is the provider as the event handler sees it; Metadata is what the metadata
-- service answers, and Services what the certificate fetcher and the provider give the controller. A
-- pointer to a backend that the controller shares between its maps is the key of that backend. The log
-- of commands and file operations is part of the state, so that statements can speak about what was
-- sent and in what order. A reconciliation pass is split into a decision for one owned weight (active_action, idle_action)
-- and its performance (perform), which the loops combine.
--
-- Bounds and fuel. Weights, states and counts are natural numbers where the code has checked that they
-- are not negative, and signed numbers elsewhere; Atoi reads the range of a 64-bit int, and the sum of
-- the sessions wraps at 64 bits. Printing a number takes at most twenty digits, which is enough for
-- 64 bits. The endpoints of a service are found by recursion on fuel, since DNS services link to
-- services; fuel above a rank that the links go down is enough. ApplyConfig's wait has five rounds in
-- the code; the loops over requests and pages are bounded as said below, and every other loop is over a
-- list. The goroutines of the queue, the locks and the pool are sequences of steps.
--
-- Simplifications. A range over a Go map visits a list in its order, which is arbitrary in every
-- statement. Comparisons without regard to case fold the letters A to Z. strings.TrimSpace and
-- strings.Fields take ASCII white space only. The goroutine of a requeue runs to its end before the next
-- sync. A pointer to an endpoint is a
-- value, since every caller passes one that is not nil. Log lines are left out. Mutexes are left out
-- where one operation holds them from beginning to end.
--
-- sort.Sort is the insertion sort that it is on up to twelve elements; on more, elements that compare
-- equal may come in another order. A container that is not found is none, where the code has an empty
-- container in no state.
--
-- The certificate fetcher's tempCertsMap is a value of the walk that fills it. The walk, the links and
-- the files are a FileSystem at the time of the poll. A redirect is a request that the HTTP client
-- makes with whatever headers; what the check makes of it is modelled. A URL is parsed and printed by
-- parameters (Web, parse), of which nothing is assumed; the host name and the port are split as net/url
-- does it. JSON is a parameter, and a response body its bytes. At most ten requests follow one another
-- in the API client and five in the metadata client, so that much fuel is given and proved enough; the
-- wait for the metadata service has fuel for the seven calls that its twenty seconds can hold; a list of
-- pages needs the fuel of its pages.
--
-- Not modelled: the start of the controller (Init, Run) apart from its credentials, the template of
-- HAProxy's configuration, sockets and transports, the pings that are sent, the texts of errors and
-- log lines, and the generated API types with their wrappers
-- (internal/rancherclient/v2/generated_client.go and beside it), which only pass calls on.
pub mod ApiClient
pub mod Base
pub mod Config
pub mod Drain
pub mod Provider
pub mod TaskQueue
pub mod Locks
pub mod Events
pub mod Selector
pub mod LogSafety
pub mod Metadata
pub mod Controller
pub mod Startup
pub mod Tests
