-- ===== src/ShardRollout.antt =====
-- pkg/controller/vitessshard/reconcile_rollout.go: the pass that releases the scheduled tablets of
-- a shard, one after the other.
--
-- `Env` is what the pass reads of the world: the answers of the Kubernetes client and of the
-- topology server. The loop over the map of the scheduled tablets meets them in an order that Go
-- leaves open: `visit` is that order. Event records change nothing that the pass reads.
pub mod OneByOne
pub mod Outcome
use vitess_operator.Prelude.{
  ℕ, String, Bool, true, false, ◌&&◌, ◌||◌, not, Option, none, some, List, [], ◌∷◌, ◌++◌, Map,
  Answer, ok, err, lookup, keys, or_zero, ltb, str_lt, sort_by, if◌then◌else◌, string_eq, ◌==◌,
}
use vitess_operator.Meta.{ObjectMeta}
use vitess_operator.Drain
use vitess_operator.Rollout
use vitess_operator.Results.{Builder, new, error}
use vitess_operator.ShardDrain.{Pod, index_pods, tablet_type_label, condition_true}

pub record Env (E : Type 0) : Type 0 where
  pub shard : ObjectMeta
  -- The condition "Available" of each tablet in the shard's status.
  pub available : Map String String
  pub list_pods : Answer (List Pod) E
  pub primary_alias : Answer String E
  pub master_eligible : ℕ
  pub visit : List String → List String
  pub delete : Pod → Option E
  pub update : Pod → Option E
  pub update_shard : ObjectMeta → Option E

pub data Action : Type 0 where
  deleted : String → Pod → Action
  released : String → Pod → Action
  uncascaded : ObjectMeta → Action

-- What the loops of `getNextScheduledTablet` find. `panicked` is a missing Pod, a nil pointer.
pub data Pick : Type 0 where
  panicked : Pick
  nothing : Pick
  picked : String → Pod → Pick

pub data Collected : Type 0 where
  missing_pod : Collected
  drained : String → Pod → Collected
  scheduled_tablets : List String → Collected

abbrev replica_pool : String
replica_pool = "replica"

abbrev external_master_pool : String
external_master_pool = "externalmaster"

-- `VitessShardStatus.TabletAliases`.
abbrev pub tablet_aliases : Map String String → List String
tablet_aliases tablets = sort_by str_lt (keys tablets)

-- The first loop of `getNextScheduledTablet`.
unfoldable pub collect : Map String Pod → List String → List String → Collected
collect pods [] scheduled = scheduled_tablets scheduled
collect pods (key ∷ tablet_keys) scheduled = elim (lookup key pods) [
  | none ↦ missing_pod
  | some pod ↦
      if Rollout.scheduled pod.meta && Drain.finished pod.meta
      then drained key pod
      else collect pods tablet_keys
          (if Rollout.scheduled pod.meta then scheduled ++ key ∷ [] else scheduled)
]

-- The second loop.
unfoldable pub first_other : String → List String → Option String
first_other primary_alias [] = none
first_other primary_alias (key ∷ scheduled) =
    if not (key == primary_alias) then some key else first_other primary_alias scheduled

abbrev pub member : String → List String → Bool
member k [] = false
member k (x ∷ xs) = (x == k) || member k xs

abbrev pub pick_pod : String → Option Pod → Pick
pick_pod key none = panicked
pick_pod key (some pod) = picked key pod

abbrev pub pick_scheduled : (List String → List String) → Map String Pod → String → Collected → Pick
pick_scheduled visit pods primary_alias missing_pod = panicked
pick_scheduled visit pods primary_alias (drained key pod) = picked key pod
pick_scheduled visit pods primary_alias (scheduled_tablets scheduled) =
    elim (first_other primary_alias (visit scheduled)) [
      | some key ↦ pick_pod key (lookup key pods)
      | none ↦
          if member primary_alias scheduled
          then pick_pod primary_alias (lookup primary_alias pods)
          else nothing
    ]

unfoldable pub get_next_scheduled_tablet :
    (List String → List String) → List String → Map String Pod → String → Pick
unfolding collect first_other
get_next_scheduled_tablet visit tablet_keys pods primary_alias =
    pick_scheduled visit pods primary_alias (collect pods tablet_keys [])

module _ {E : Type 0} (env : Env E) where
  -- The loop of checks: whether the pass goes on.
  unfoldable pub may_release : Map String Pod → List String → Bool
  may_release pods [] = true
  may_release pods (key ∷ tablet_keys) =
      (or_zero "" (lookup key env.available) == condition_true)
      && elim (lookup key pods) [ none ↦ false | some pod ↦ not (Rollout.released pod.meta) ]
      && may_release pods tablet_keys

  abbrev pub noted : List Action → Option E → List Action × Builder E
  noted actions none = (actions, new)
  noted actions (some e) = (actions, error e new)

  -- The tablet is the only one that can be the primary.
  unfoldable pub is_lone_master : Pod → Bool
  is_lone_master pod =
      let tablet_type = or_zero "" (lookup tablet_type_label pod.meta.labels) in
      ltb env.master_eligible 2
      && (tablet_type == replica_pool || tablet_type == external_master_pool)

  unfoldable pub release_tablet_pod : String → Pod → Bool → List Action × Builder E
  release_tablet_pod key pod true = noted (deleted key pod ∷ []) (env.delete pod)
  release_tablet_pod key pod false =
      let pod' = record pod { meta = Rollout.release pod.meta } in
      noted (released key pod' ∷ []) (env.update pod')

  unfoldable pub uncascade_shard : List Action × Builder E
  uncascade_shard =
      let shard = Rollout.uncascade env.shard in
      noted (uncascaded shard ∷ []) (env.update_shard shard)

  unfoldable pub act_on : Pick → Option (List Action × Builder E)
  unfolding release_tablet_pod uncascade_shard is_lone_master
  act_on panicked = none
  act_on nothing = some uncascade_shard
  act_on (picked key pod) = some (release_tablet_pod key pod (is_lone_master pod))

  abbrev pub release_next : Map String Pod → List String → Option (List Action × Builder E)
  release_next pods tablet_keys =
      if not (may_release pods tablet_keys) then some ([], new) else elim env.primary_alias [
        | err e ↦ some ([], error e new)
        | ok primary_alias ↦
            act_on (get_next_scheduled_tablet env.visit tablet_keys pods primary_alias)
      ]

  -- `reconcileRollout`. A panic is `none`.
  unfoldable pub reconcile_rollout : Option (List Action × Builder E)
  unfolding may_release act_on get_next_scheduled_tablet index_pods
  reconcile_rollout =
      if not (Rollout.cascading env.shard) then some ([], new) else elim env.list_pods [
        | err e ↦ some ([], error e new)
        | ok pods ↦ release_next (index_pods pods []) (tablet_aliases env.available)
      ]
