-- ===== src/Lib.antt =====
-- The ShardingSphere operator, shardingsphere-operator/ of the repository: the controllers that
-- keep storage nodes, the databases of AWS and of CloudNativePG behind them, their storage units in
-- a ShardingSphere proxy, and the compute nodes, which are the proxies. And the PITR tool for
-- openGauss, solutions/opengauss/pitr: the command line, which backs the storage nodes of a proxy up
-- and restores them, and the agent server beside each storage node, which it asks to do so.
--
-- A controller, a command or a handler is modelled as a program of `Effects`: a tree of requests
-- (calls of the Kubernetes API, of the AWS SDK, of `database/sql`, of the random source, of the
-- event recorder; of the agent servers, the files, the clock and the terminal; of the shell) with a
-- continuation for each answer, where an answer is a value or an error. A run takes an environment
-- that answers each request from all the requests made before, so a statement about every run
-- covers every behaviour of what lies outside: missing objects, failing calls, conflicts. A Go
-- `error` is a value of the model's `Result`, `defer` is a program that makes its request on every
-- way out, an index out of range is a `panic`. Objects that Go mutates through pointers (the node
-- and the parameter map of its provider) are passed on and returned.
--
-- The modules:
--   * Go: errors, `map[string]string` (Go/Map), the functions of `strings` (Go/Text), their order
--     (Go/Order), `strconv` and the conversion to int32 with its wrap-around (Go/Number).
--   * Api: the resources of api/v1alpha1: storage nodes with `AddCondition`, `UpsertCondition` and
--     `RemoveCondition` (Api/StorageNode), storage providers, compute nodes. Lemmas on the
--     condition list are in Api/StorageNode/Conditions.
--   * Sdk: what the operator takes from other modules, as a parameter: the status constants of the
--     AWS wrapper and of CloudNativePG, the predicates `IsNotFound` and `IsAlreadyExists`, the
--     builder of the CloudNativePG cluster and those of the objects of a compute node, and the
--     order in which `range` visits a map.
--   * Effects: requests, programs and their combinators; runs and properties of every run
--     (Effects/Run), programs that never make some kind of request (Effects/Avoids, over the kinds
--     of Effects/Kinds), that make one unless they fail (Effects/Performs) or several in an order in
--     every run (Effects/Orderly), that end with a closing request (Effects/Closing), all of whose
--     requests satisfy a predicate (Effects/Only), that return only after a request was answered
--     without an error (Effects/Succeeds), that end in a given panic once a request was answered
--     (Effects/Fated), that make some requests only after another had an answer of some
--     kind (Effects/Guards), that release what they lock (Effects/Releasing), and the run along one
--     environment (Effects/Along).
--   * Aws: pkg/reconcile/storagenode/aws, the client that the storage node controller calls:
--     instances (Aws/Instance, with the generation and check of the user name in Aws/Username),
--     clusters (Aws/Cluster) and Aurora clusters (Aws/Aurora).
--   * ShardingSphere: pkg/shardingsphere/shardingsphere.go, the DistSQL sent to a proxy.
--   * Controllers/StorageNode: pkg/controllers/storage_node_controller.go. `Reconcile`,
--     `reconcile` and `getStorageProvider` are in Reconcile, `finalize` and `finalizeCloudNativePG`
--     in Finalize, the functions that create, find, describe and delete a database of AWS in
--     Database, those of CloudNativePG in CloudNative, `registerStorageUnit` and
--     `unregisterStorageUnit` in Unit, `computeDesiredState` in Status, the comparison and write of
--     the status in Store. Their theorems stand in Status/Readiness, Status/Conditions,
--     Ordering, Finalizer, Completion, Creation, Connection, Registration and Instances, on the
--     lemmas of Footprint.
--   * Controllers/ComputeNode: pkg/controllers/compute_node_controller.go and, in Pods,
--     `GetConditionFromPods` of pkg/reconcile/computenode/utils.go. `reconcileComputeNodeStatus` is
--     in Status, the loops over ports in Ports, the deployment, service and config map in Workload,
--     `Reconcile` and `reconcileStatus` in Reconcile. Their theorems stand in Pods/Reported,
--     Status/Phase, Status/Merged, Status/Unknown, Ports, Parts and Workload/Unchanged.
--   * Pitr: solutions/opengauss/pitr/cli. The records are in Model (internal/pkg/model), the requests
--     in Requests, the flags and what other modules give in Runtime; Agent is
--     internal/pkg/agent-server.go, Proxy internal/pkg/shardingsphere-proxy.go, Storage
--     internal/pkg/local-storage.go, Commands/Backup (with the goroutines of the nodes in
--     Commands/Nodes), Restore, Delete, Show and Common the files of internal/cmd, where `backup`,
--     `restore`, `deleteRecord` and `show` are programs. The store of records is described in
--     Storage/Disk to Storage/Lifecycle as a map from names to contents in the order of the names,
--     the polls in Commands/Backup/Polling, the lock in Commands/Backup/Lock, the order of the two
--     steps of a restore and of a deletion in their modules Complete.
--   * PitrAgent: solutions/opengauss/pitr/agent. Cmds is pkg/cmds/cmd.go, Gsutil pkg/gsutil/conn.go,
--     OpenGauss internal/pkg/opengauss.go, View and Handlers internal/handler. The host of a restore,
--     with its directories and openGauss as a state that commands change, is in Handlers/Recovery;
--     Handlers/Accepts relates the checks of the agent to the requests of the command line.
--   * EndToEnd: the command line over environments in which its agents answer by their handlers.
--   * Examples: concrete inputs, and the theorems at them.
--
-- Recursion is structural but for `decimal`, whose fuel is the number plus one: a number has no
-- more digits than that; and for the polls of a backup, which the code repeats without a bound:
-- `ticks` bounds them, and beyond the process is taken to be killed. The goroutines of one step run
-- one after the other, in the order in which they end or report, which is a parameter; that of a
-- poll ends where it is blocked by its own channel, which is a value of `Blocked`. Instants are
-- natural numbers; a port or a replica count is the natural number it holds, since the API server
-- refuses a negative one. Annotation maps are taken to be non-nil. Paths are kept as a directory
-- and a name.
-- A receive of the agent that blocks for ever is a `panic`. The messages of the agent's errors leave
-- out the values that are formatted into them, but for the texts of other errors.
--
-- Not modelled: the construction of Kubernetes objects (pkg/kubernetes), which the controllers
-- only pass on, logging, printing and waiting, the set-up of managers, webhooks and HTTP servers, the
-- other controllers, the DistSQL syntax trees and parser, the charts and the templates.
mod Prelude
pub mod Go
pub mod Api
pub mod Pitr
pub mod PitrAgent
pub mod EndToEnd
pub mod Sdk
pub mod Effects
pub mod Aws
pub mod ShardingSphere
pub mod Controllers
mod Examples
