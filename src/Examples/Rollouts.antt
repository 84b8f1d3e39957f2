-- ===== src/Examples/Rollouts.antt =====
-- pkg/controller/vitessshard/reconcile_rollout.go at a concrete shard: one tablet is scheduled.
use vitess_operator.Prelude.{String, [], ◌∷◌, none, ok, true}
use vitess_operator.Meta.{ObjectMeta}
use vitess_operator.Rollout
use vitess_operator.ShardDrain.{Pod}
use vitess_operator.ShardRollout.{Env, reconcile_rollout}
use vitess_operator.ShardRollout.OneByOne.{IsVisit}
use vitess_operator.ShardRollout.Outcome.{IsOutcome, IsRelease, reconcile_rollout-IsOutcome}

abbrev meta_with : String → ObjectMeta
meta_with annotation = record {
  name = "shard";
  namespace = "default";
  uid = 1;
  labels = [];
  annotations = (annotation, "") ∷ [];
  deletion_timestamp = none;
}

abbrev scheduled_pod : Pod
scheduled_pod = record {
  meta = meta_with Rollout.scheduled_annotation;
  alias = "zone1-101";
  ready = true;
  containers = [];
}

abbrev shard_env : Env String
shard_env = record {
  shard = meta_with Rollout.cascade_annotation;
  available = ("zone1-101", "True") ∷ [];
  list_pods = ok (scheduled_pod ∷ []);
  primary_alias = ok "zone1-102";
  master_eligible = 2;
  visit = λ xs. xs;
  delete = λ p. none;
  update = λ p. none;
  update_shard = λ m. none;
}

in_order : IsVisit (λ xs. xs)
in_order xs k = ((λ i. i), λ i. i)

reconcile_rollout-IsOutcome_example :
    IsOutcome shard_env (IsRelease shard_env) (reconcile_rollout shard_env)
reconcile_rollout-IsOutcome_example = reconcile_rollout-IsOutcome shard_env in_order
