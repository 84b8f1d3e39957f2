-- ===== src/ShardDrain.antt =====
-- pkg/controller/vitessshardreplication/reconcile_drain.go: one drain pass over the tablets of a
-- shard.
--
-- `Env` is what the pass reads of the world: the answers of the Kubernetes client, of the topology
-- server and of the tablets. A tablet is known by its alias string. A timeout shows as the error of
-- the call that it stops. Event records, logs and metrics change nothing that the pass reads.
mod Inputs
mod Choice
mod Status
mod Loops
pub mod Candidate
mod Writable
pub mod Pass
mod Opening
pub mod Primary
unfoldable pub use Inputs.*
unfoldable pub use Choice.*
unfoldable pub use Status.*
unfoldable pub use Loops.*
