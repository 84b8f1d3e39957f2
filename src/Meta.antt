-- ===== src/Meta.antt =====
-- The part of a Kubernetes object's metadata (`metav1.Object`) that the operator reads and writes.
use vitess_operator.Prelude.{String, ℕ, Option, Map}

-- A nil map reads and prints as an empty one, so one value stands for both.
pub record ObjectMeta : Type 0 where
  pub name : String
  pub namespace : String
  pub uid : ℕ
  pub labels : Map String String
  pub annotations : Map String String
  pub deletion_timestamp : Option ℕ
