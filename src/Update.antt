-- ===== src/Update.antt =====
-- pkg/operator/update: how the fields that the operator wants are put into an object that the
-- server, its admission webhooks and other controllers have changed.
--
-- `dst` is a pointer whose target is replaced: each function returns the new target. A nil map or
-- list is an empty one. The types of the Kubernetes API are records of the fields that are read
-- here, with the other fields in a parameter.
mod Merge
mod Container
pub mod Keeps
pub mod Idempotent
unfoldable pub use Merge.*
unfoldable pub use Container.*
