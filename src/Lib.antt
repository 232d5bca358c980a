-- ===== src/Lib.antt =====
-- The controllers of backup-restore-openstack-mfke. They run in a seed cluster and back up the volumes and
-- the configuration of shoot clusters. Each controller reconciles one kind of resource of the seed:
--
--   Snapshot             internal/controller/snapshot_controller.go: a VolumeSnapshot in the shoot
--   RestorePvc           internal/controller/restorepvc_controller.go: a PVC restored from a Snapshot
--   SchedulerSnapshot    internal/controller/schedulersnapshot_controller.go: Snapshots and
--                        CreateKubeSnapshots made on a schedule and deleted past their time
--   CreateKubeSnapshot   internal/controller/createkubesnapshot_controller.go: a pod that dumps the
--                        shoot's objects
--   SyncSnapshot         internal/controller/syncsnapshot_controller.go: RestorePvcs whose PVC is gone
--                        deleted, the others and the Pvcs marked for another round
--   Pvc, PvSnapshot      internal/controller/pvc_controller.go and pvsnapshot_controller.go: the PVCs
--                        and the VolumeSnapshots of the shoot, listed in a status
--
-- The controllers meet in the seed's API server. A RestorePvc counts its use of a Snapshot in
-- spec.numInUse, which the retention of the scheduler reads; the scheduler creates and deletes the
-- resources that the other controllers reconcile.
--
-- Types holds api/v1beta1 as records, a nil pointer, slice or map as `none`, and times as nanoseconds
-- since Go's zero time. Effects is the world: a request for each call of a client or of the clock, the
-- answers an `Env` that may depend on all requests before, and `M`, an action that extends the trace of
-- requests and returns, panics or does not end. controllerutil, meta, unstructured, yaml, resource, cron
-- and the time zone database are fields of `Env` without any law: the theorems hold for all of them. An
-- object that Go changes in place is passed on, and a call that fills it returns it. Effects.Trace,
-- Effects.Returns and Effects.Triple have the rules for which requests an action makes, what it returns,
-- and what holds of its trace.
--
-- Command is cmd/main.go: a step for each call of controller-runtime, which a `World` lets fail or not.
-- System puts the controllers together: the manager gives each request to the controller of its kind, and
-- `rounds` is the trace of any list of requests, one after another. Restores/Ledger is the abstract count
-- of uses that the count in spec.numInUse refines: a number that moves by one, down only where it is
-- positive. The refinement takes the server to store what the program writes (`IsStore`): nobody else
-- writes the count, and the Snapshot is not deleted and made again. The rounds of one manager do not
-- overlap here. The modules of System whose names end in Frame show which requests a controller leaves
-- out; those of Ledger follow the rounds of the RestorePvc controller. System/Total is about the rounds that
-- return, and what of the world this takes.
--
-- Utils follows utils.go, utils_pods.go, utils_resources.go, const.go and getPVC of pvc_controller.go.
-- Utils/Clients is over a disk what the requests `connect` and `connect_dynamic` of the controllers are
-- without it; Utils/Validation has the functions that no caller uses. Schedulers/TargetView is the
-- quotient of backup targets by the order of their namespaces.
-- KubeSnapshot, Snapshots, Restores, Schedulers and Syncs follow one controller each, Listings two: a
-- function of the code has the same name in snake case, and where it is long, its parts are functions of
-- their own. The files that end in Laws, and Counter, Requests, Deletion and Nomination, have theorems
-- about one component. Tests applies what is listed below to a small cluster.
--
-- Integers are as in Go: int and time.Duration have 64 bits, the run counter 32. The loop of `previous`
-- has fuel for two passes over all times up to the present, which is enough: a schedule of cron gives a
-- later time or the zero time, and the second time it gives the zero time the loop repeats itself. The
-- polling of a new VolumeSnapshot has the five rounds of the code, decimal numbers have at most 20 digits.
--
-- Not modelled: logging, generated deep copies and the registration of the scheme, vendored code, and the
-- transport behind the clients. The logger is taken as main sets it up, in development mode and without a
-- zap flag on the command line. It panics where a call that is enabled has a key without a value: that is
-- the case where reconcileCreateSnapshot fails to list the VolumeSnapshots, and there the model panics. A
-- list whose request fails is taken as empty where the code goes on with it.
pub mod Prelude
pub mod Types
pub mod Effects
pub mod Utils
pub mod KubeSnapshot
pub mod Snapshots
pub mod Restores
pub mod Schedulers
pub mod Syncs
pub mod Listings
pub mod Command
pub mod System
pub mod Tests
