-- ===== src/Lib.antt =====
-- The Vitess operator: a Kubernetes operator that runs Vitess clusters. Its controllers compare the
-- objects that a cluster needs with those that exist, and create, update, drain and delete them.
--
-- The parts and how they interact. The object reconciler makes one object what its controller wants.
-- Changes that need a new object wait for the rollout annotations, which the shard's rollout pass
-- releases tablet by tablet, and for the drain annotations, by which the reconciler asks the drain
-- controller to take a tablet out of service. The drain controller is one pass over the tablets of a
-- shard, with the state machine of the drain protocol in it; before it, a shard that has no primary
-- yet gets one. Backup schedules start jobs for the shards of a cluster. The connections to topology
-- servers are shared by all controllers. Each pass returns a result that the results builder adds up.
--
-- The files, with paths from the repository's root:
--   Prelude        names and lemmas that the others share: tests, lists, maps, strings, sorting
--   Meta           the metadata of an object
--   Drain          pkg/operator/drain/drain.go
--   Rollout        pkg/operator/rollout/rollout.go
--   Results        pkg/operator/results/results.go
--   Reconciler     pkg/operator/reconciler/object.go
--   ObjectSet      pkg/operator/reconciler/object_set.go
--   ShardDrain     pkg/controller/vitessshardreplication/reconcile_drain.go
--   ShardRollout   pkg/controller/vitessshard/reconcile_rollout.go
--   Update         pkg/operator/update/podspec.go and metadata.go
--   DrainProtocol  drainers, cache, server and drain passes as one step relation
--   ShardInit      pkg/controller/vitessshardreplication/init_shard_primary.go,
--                  init_restored_shard.go, tablet_externally_reparent.go and
--                  vitessshardreplication_controller.go
--   ConnPool       pkg/operator/toposerver/connpool.go
--   Names          pkg/operator/names/join_constraints.go and join.go
--   Mysql          pkg/operator/mysql/mysql.go
--   BackupSchedule pkg/apis/planetscale/v2/vitessbackupschedule_methods.go and
--                  pkg/controller/vitessbackupschedule/schedule_generator.go
--   KeyRanges      pkg/apis/planetscale/v2/keyrange.go
--   BackupController
--                  pkg/controller/vitessbackupschedule/vitessbackupschedule_controller.go
--   Examples       concrete inputs
--
-- How it is modelled. A Go map is a list of entries in the order in which `range` meets them, and
-- strings are compared as the standard library compares them. A method that mutates its object
-- returns the new one. A pass takes the answers of the Kubernetes client, of the topology server and
-- of the tablets as a record of functions, and returns the list of its calls beside its result; a
-- Go panic is `none`. Every loop is a structural recursion over the list that it walks. Only the
-- search for missed backup runs has fuel, one more than the limit of missed runs: the loop tests the
-- limit in each round, so that is enough. What runs concurrently is a sequence of steps
-- (ConnPool/Steps), or answers in an order that is left open. Names are those of the source, in
-- snake case.
--
-- Not modelled: events, metrics and logs, since no code reads them back; the construction of the
-- manager and its flags; the builders of Pod, Job and Deployment specs; and of the controllers what is
-- not named above.
pub mod Prelude
pub mod Meta
pub mod Drain
pub mod Results
pub mod Rollout
pub mod Reconciler
pub mod ObjectSet
pub mod ShardDrain
pub mod ShardInit
pub mod ShardRollout
pub mod Update
pub mod DrainProtocol
pub mod ConnPool
pub mod Names
pub mod Mysql
pub mod KeyRanges
pub mod BackupSchedule
pub mod BackupController
pub mod Examples
