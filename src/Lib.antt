-- ===== src/Lib.antt =====
-- Cluster API provider for Yandex Cloud: the controllers that keep a load balancer for each
-- YandexCluster and a virtual machine for each YandexMachine, with the services and the scopes that
-- they use. The program reads its objects from a Kubernetes API server, asks the cloud for what they
-- specify, and writes the objects back when a reconciliation ends.
--
-- The parts, from the outside in:
--   main.go, internal/pkg/options, api/v1alpha1/groupversion_info.go
--       Startup: Main (`init`, `main`), Controllers (`SetupWithManager` of both controllers and
--       `SetupWebhookWithManager`); Trace, Order and Ending have the proofs on the order of the set-up
--   controllers/yandexcluster_controller.go, yandexmachine_controller.go
--       Controllers/ClusterReconciler, Controllers/MachineReconciler, Controllers/Outcome:
--       `Reconcile` is `reconcile_request`, which makes the scope, runs `reconcile` or
--       `reconcileDelete` (`run_scope`) and closes the scope; Controllers/Closing has the proofs on
--       closing
--   internal/pkg/cloud/services/loadbalancers
--       LoadBalancer/Service (reconcile.go, service.go), LoadBalancer/Nlb (nlb.go), and for alb.go
--       LoadBalancer/Alb: Reads, Creation, Deletion, Targets; LoadBalancer/Builders is the package
--       builders
--   internal/pkg/cloud/services/compute
--       Compute/Service (reconcile.go)
--   internal/pkg/cloud/scope, internal/pkg/cloud/ycerrors
--       Scope/Cluster (cluster.go), Scope/Machine and Scope/InstanceRequest (machine.go),
--       Scope/Labels (labels.go); `IsNotFound` of ycerrors/errors.go is `is_not_found` in Scope/Machine
--   internal/pkg/client/interfaces.go, internal/pkg/cloud/interfaces.go
--       Cloud/Interfaces: the interface of the client; Cloud: `Client`, what the services call of it,
--       and `Balancer`; Cloud/Messages and Cloud/Requests hold the messages of the cloud API;
--       Cloud/Recording is a device of the specifications, a client that notes each call that changes
--       something. Cloud/Refinement says when one client refines another,
--       Kube/Refinement when one API server does; the modules named Refinement of the services and of
--       the controllers carry that through their operations. Cloud/Quiet says which calls a step
--       makes; the modules named Quiet carry that through a whole `Reconcile`, with what is permitted
--       of a machine in Compute/Service/Quiet and of a cluster in Controllers/ClusterReconciler/Quiet
--   internal/pkg/client, internal/pkg/metrics
--       YandexClient: Sdk (client.go), Compute (compute.go), Alb (alb.go), Nlb (nlb.go); Client fills
--       the interfaces, Refinement and Deletion compare it with the requests
--       themselves, Reconciliation does so for the controllers over it, Requests counts what it sends;
--       Metrics and Metrics/Registration (metrics.go)
--   api/v1alpha1
--       Api/Cluster, Api/Machine, Api/Conditions (yandexcluster_types.go, yandexmachine_types.go,
--       types.go), Api/Template (yandexmachinetemplate_types.go); Webhooks/Cluster, Webhooks/Machine,
--       Webhooks/Template: the validation of the three kinds (yandexcluster_webhook.go,
--       yandexmachine_webhook.go, yandexmachinetemplate_webhook.go); Webhooks/Unstructured: the maps
--       that the last two compare
-- Exec, Exec/Errors and Prelude are what the parts share; Tests runs the theorems over a small cloud.
--
-- State. A step is a function from a state to a result and a state (`Exec`): a result is a value, an
-- error or a panic, and what was written before an error or a panic stays written. The world, that is
-- the cloud and the API server, is a type `W` of which nothing is known; the client of the cloud
-- (`Client W`) and the API server (`Kube W`) are records of operations on it. The pointer to the
-- object that a controller changes in place is a second component of the state: `ClusterState W` holds
-- the YandexCluster, `MachineState W` the YandexMachine. Nothing else is shared between the scopes and
-- the services, so one copy is enough; a scope that is read along with the object is an argument. The
-- patch helpers are given the object as it was read and as it is, and change the world alone. The
-- client of the cloud keeps metrics beside the world, which has the clock: `Monitored W M`.
--
-- Numbers. Lengths are native natural numbers; int32 and int64 are `ℤ`, whose conversions wrap around
-- as Go's do (`to_int32`, `to_int64`). There is no fuel: every loop of the modelled code is over a
-- list.
--
-- Parameters. `Libraries` holds the pure functions of the Kubernetes libraries and of the crypto
-- packages, `Kube` the calls of the API server, `CapiLabels` the label keys of Cluster API. A hypothesis on
-- them stands where it is used: `IsDigest` says that a SHA-256 digest has 64 hexadecimal digits, of
-- which the first 16 are used; `KeepsTargets` what the cloud documents of the targets of a group,
-- `Deletes` and `Creates` what it documents of deletions and creations. `Network` holds what the webhook asks of the
-- package net. Conditions are kept as the list of the calls of the conditions library. Errors are kept as the
-- values that their messages are formatted from.
--
-- The SDK is the record `Sdk`, Prometheus the record `YcMetrics` with what it documents in `TakesLabels`
-- and `Counts`, which `TakesAsMany` gives for the vectors of the package; `EncodesMachines` and
-- `EncodesTemplates` are what is documented of the conversion of objects to maps.
--
-- The controller library is a function from `Setup`, the calls that only return an error, with what
-- they are given (`Runtime`); the environment library is a function from the tags of the
-- configuration to its value. What `flag.Parse` reads of the command line is `Flags`.
--
-- Not modelled: what the controller library does with what it is given, such as watches, queues
-- and the certificates of webhooks; generated deep copies and mocks; logging. The deadline of a reconciliation shows as
-- errors of the calls. Of a machine's specification a nil slice is not told apart from an empty one, and
-- a `resource.Quantity` is the canonical text that its conversion writes.
pub mod Prelude
pub mod Exec
pub mod Api
pub mod Cloud
pub mod Kube
pub mod Scope
pub mod LoadBalancer
pub mod Compute
pub mod Controllers
pub mod Webhooks
pub mod Metrics
pub mod Startup
pub mod YandexClient
pub mod Tests
