-- ===== src/ShardDrain/Inputs.antt =====
-- pkg/controller/vitessshardreplication/reconcile_drain.go: what a pass reads, and what it does.
use vitess_operator.Prelude.{ℕ, String, Bool, Option, List, Map, Answer}
use vitess_operator.Meta.{ObjectMeta}

pub record Container : Type 0 where
  pub name : String
  pub image : String

-- A vttablet Pod: `ready` is the answer of `IsPodReady`.
pub record Pod : Type 0 where
  pub meta : ObjectMeta
  pub alias : String
  pub ready : Bool
  pub containers : List Container

-- `topodata.TabletType`, as far as the pass tells the types apart.
pub data TabletType : Type 0 where
  primary replica spare other_type : TabletType

pub record Tablet : Type 0 where
  pub alias : String
  pub tablet_type : TabletType

-- One answer to the question for a replication position.
pub record CandidateInfo (P E : Type 0) : Type 0 where
  pub tablet : Tablet
  pub position : Answer P E

pub record Env (P E : Type 0) : Type 0 where
  pub list_pods : Answer (List Pod) E
  -- The alias of the shard's primary, if it has one.
  pub get_shard : Answer (Option String) E
  pub get_tablets : Answer (Map String Tablet) E
  -- The condition "Available" of each tablet in the shard's status.
  pub available : Map String String
  pub using_external : Bool
  -- The image for mysqld in the shard's spec: the source dereferences a pointer, which the operator's
  -- defaulting fills in before.
  pub desired_image : String
  pub now : String
  pub update : Pod → Option E
  -- `mysql.DockerImageSafeUpgrade`.
  pub safe_upgrade : String → String → Answer Bool E
  pub execute_fetch : Tablet → Option E
  -- A candidate's answer, `ReplicationStatus` and then `DecodePosition`, and the order in which the
  -- answers come in.
  pub position_of : Tablet → Answer P E
  pub arrival : List ℕ
  pub zero_position : P
  pub is_zero : P → Bool
  pub at_least : P → P → Bool
  pub planned_reparent : Tablet → Option E
  pub externally_reparented : Tablet → Option E
  pub change_type_to_spare : String → Option E

pub data Action : Type 0 where
  updated : String → ObjectMeta → Action
  fetched : Tablet → Action
  reparented : Tablet → Action
  reparented_externally : Tablet → Action
  made_spare : String → Action

abbrev pub condition_true : String
condition_true = "True"

abbrev pub tablet_type_label : String
tablet_type_label = "planetscale.com/tablet-type"

abbrev pub external_master : String
external_master = "externalmaster"

abbrev pub mysqld_container : String
mysqld_container = "mysqld"

abbrev pub replication_requeue_delay : ℕ
replication_requeue_delay = 5000000000
