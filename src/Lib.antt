-- ===== src/Lib.antt =====
-- shoot-grafter onboards Gardener Shoots to Greenhouse. A CareInstruction names a garden cluster
-- and selects Shoots in it. For each CareInstruction one controller (controller/careinstruction)
-- runs on the Greenhouse cluster: it starts a second controller (controller/shoot) against the
-- garden, keeps the conditions of the CareInstruction, and reports the status of every Shoot. The
-- second controller turns each Shoot into a Secret from which Greenhouse makes a Cluster, and
-- sets up authentication and RBAC.
--
-- How the files correspond to the code:
-- - Kube models the Kubernetes, Gardener and Greenhouse objects as far as the controllers use
--   them. Kube/Client is the interface of a cluster's client over a state of all clusters,
--   Kube/Conditions that of the Greenhouse condition lists with the laws that are documented, and
--   Kube/Exec the actions that pass the state on and may fail; what was done before an error
--   stays done.
-- - Api is api/v1alpha1/careinstruction_types.go; Api/Memory is the memory that pointers, slices
--   and maps refer to, and Api/DeepCopy the copies of zz_generated.deepcopy.go, with their proofs
--   in its children.
-- - Status is controller/careinstruction/status.go (initializeConditionsToUnknown,
--   reconcileStatus).
-- - ShootStatus is controller/careinstruction/shootstatus.go (buildShootStatuses). The iteration
--   order of Go maps is a parameter.
-- - ShootController is controller/shoot: SecretData has the labels, annotations and data of the
--   Secret, Auth is auth.go, Rbac is rbac.go, Access is client.go, and Reconcile is Reconcile of
--   shoot_controller.go, cut into its steps. Its children Annotations, Labels, Propagated, Keeps,
--   Ensures, Leaves, Writes, Ownership, Settled, Garden and Connected hold the proofs.
-- - CareInstructionController is controller/careinstruction: Gardens has the changes of the map
--   of gardens, Manager has reconcileManager, restartShootController and cleanupCareInstruction
--   of careinstruction_controller.go, Access is client.go, Shoots and Report have
--   reconcileShootsNClusters, cut into its steps, and Handlers has ensureAuthConfigMapLabeled and
--   what the lifecycle calls. Its other children hold the proofs: Sound, Lives, Kept and Reached
--   on the starts of managers, Runners, Simulates, Made and Refines on an abstract machine of the
--   managers that run, Others, Alone, Owned and Isolated on the gardens of other
--   CareInstructions, Known, Serves, Steady, Again and Idle on reconcileManager, Selected,
--   Success, Ends, Reports, Bounds, Concluded and Consistent on the report, Renewal and
--   Seeded on the restart when the auth ConfigMap changes, and Errors on EnsureCreated. A start
--   has a number, which stands for its manager, context and channel. The handlers change one
--   CareInstruction in place; a patch puts the answer of the server in its place.
-- - Metrics is controller/careinstruction/metrics.go: a gauge is a function of its labels.
-- - Webhook is webhook/v1alpha1/careinstruction_webhook.go.
-- - Watch is internal/clientutil/predicates.go and the functions that map an event to requests;
--   Watch/SetUp has the predicates that SetupWithManager of the shoot controller builds, and
--   Watch/Wiring the watches that SetupWithManager of both controllers sets up.
-- - Process is main.go: the calls of the libraries that can fail are parameters, and an end of
--   the process is a value.
-- - Base has the tests on texts and numbers, maps as association lists, sorting by name, and the
--   texts that are lists with commas. Tests has concrete inputs.
--
-- Every loop of the code runs over a list or a map, and is structural recursion; no fuel is
-- needed. Counters are natural numbers, as they count the elements of lists. A nil map is the
-- absent option. Log lines are left out. CEL evaluation, base64, label propagation and the
-- clients are parameters.
--
-- Locks are left out: each handler runs by itself. A garden holds a pointer to a specification.
-- The state tells whether that is the specification of the object at hand, and if it is, an
-- answer of the server that replaces the one replaces the other. Following a nil pointer is an
-- error value of its own.
--
-- Not modelled: the registration of the API group, of the gauges and of the webhook with the
-- libraries that serve them, the options of the log, and helpers of the tests.
pub mod Base
pub mod Kube
pub mod Api
pub mod Status
pub mod ShootStatus
pub mod ShootController
pub mod Watch
pub mod Webhook
pub mod Metrics
pub mod Process
pub mod CareInstructionController
pub mod Tests
