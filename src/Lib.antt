-- ===== src/Lib.antt =====
-- lbex, an external load balancer for Kubernetes: it watches the services, endpoints and nodes of a
-- cluster and writes NGINX stream configurations for the services that ask for it.
--
-- The program's parts, and the modules that model them:
--   - annotations/service_annotation.go, annotations/annotation_errors.go: Annotations. A getter returns
--     its value and its error as a pair; `get_X_annotation` is GetXAnnotation.
--   - service.go: Service. Objects of type interface{} are the type `Object` of K8s, by dynamic type.
--   - controller.go, checkAffinity and baseCheck: Selection. getServiceEndpoints, getEndpoints,
--     getServiceNetworkTopo and getServices: Topology. A panic is a value of `Outcome`, and a loop is a
--     recursion on the list that it visits. syncNodes, syncServices, syncEndpoints and
--     enqueuServiceObjects: Controller, on a record of the queues and the Configurator's state.
--   - node.go: NodeInfo. task_queue.go: Queue. services.go, endpoints.go, nodes.go: Handlers.
--   - nginx/node.go, nginx/stream.go, nginx/service.go: Nginx and Nginx.Options for the data and the
--     annotation values. nginx/nginx.go and the file operations of nginx/stream.go: Nginx.Control, on a
--     `World` of files and of the commands that have run; NewNginxController and the main file:
--     Nginx.Main, with the types of that file and nginx/http_context.go in Nginx.Context. nginx/http.go:
--     Nginx.Http for the data and Nginx.Files for the operations.
--   - nginx/configurator.go: Configurator for the cache of nodes, Streams for the functions
--     create*StreamUpstream, Generate for generateStreamNginxConfig, Publish for AddOrUpdateService,
--     UpdateServiceEndpoints and DeleteConfiguration. The package's three maps are fields of `State`.
--   - nginx/configurator.go for ingresses, nginx/ingress.go and nginx/convert.go: Ingress for the data and
--     the readers of annotations, Ingress.Settings for createIngressConfig, Ingress.Rewrites for the
--     annotations that name services, Ingress.Upstream for createUpstream and createLocation,
--     Ingress.Generate for generateNginxIngressCfg, Ingress.Publish for AddOrUpdateIngress,
--     updateCertificates, UpdateMainConfigHTTPContext, NewConfigurator and the rest.
--   - config.go: Config for the values of the flags, Environment for envParse. main.go and
--     newLbExController of controller.go: Start.
--   - Prelude: the names that the modules share, lists, Go's maps (Dict), integers, and the functions of
--     strings and strconv that the code calls, on texts.
--   - Tests: a small cluster with concrete parameters, and each theorem applied to it.
--
-- How they interact: an informer calls a handler, which puts a key in a queue; a worker takes the key
-- and calls a sync function; syncServices reads the stores, builds the topology of the service and
-- passes it to the Configurator, which generates a configuration, writes it and reloads NGINX; syncNodes
-- updates the cache of nodes and queues the services that the Configurator reports; syncEndpoints queues
-- the service of its key.
--
-- Parameters stand for code outside the repository: `Runtime` for the order in which each range visits
-- a map, which may differ from one range to the next, and in which sort.Sort leaves equal items, `Client` and `Store` for client-go, `WorkQueue` for the
-- work queue, `DeepEqual` for reflect.DeepEqual, `Os` for the file system, text/template and the shell,
-- `FlagSet` for pflag, `Clients` for the clients of client-go, and `port_string` for IntOrString.String.
--
-- Numbers: an `int` of Go is an unbounded integer; the conversion to int32 in getEndpoints wraps, and
-- strconv.Atoi rejects what does not fit in 64 bits. No definition uses fuel: each loop of the code is
-- over a list.
--
-- Not modelled: the parsing of the command line, goroutines and their wiring, log messages, and the text
-- that the templates produce. The controller never calls the operations on ingresses; they are modelled as
-- they stand. The mutex of the Configurator makes its operations atomic, and the model takes each as one
-- step; DeleteNode reads the cache before it takes the mutex, which the model does not show. The context
-- that the Configurator points to is a value here, so a caller that changes it later is not shown. A nil
-- slice and an empty slice are both the empty list.
pub mod Prelude
pub mod Runtime
pub mod K8s
pub mod Annotations
pub mod Outcome
pub mod Client
pub mod Config
pub mod Service
pub mod Selection
pub mod Topology
pub mod Nginx
pub mod Configurator
pub mod Streams
pub mod Generate
pub mod Publish
pub mod Ingress
pub mod Environment
pub mod Start
pub mod NodeInfo
pub mod Queue
pub mod Controller
pub mod Handlers
pub mod Tests
