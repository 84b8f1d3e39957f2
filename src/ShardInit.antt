-- ===== src/ShardInit.antt =====
-- pkg/controller/vitessshardreplication/init_shard_primary.go: the first primary of a shard without
-- backups.
--
-- What the topology server and the tablets answer is a record of functions of the tablet's name. A
-- check of a tablet that runs in the background gives its answer or an error; which error comes
-- first is left open, and so only whether there is one counts. The context is not cancelled before.
pub mod Unused
pub mod Elect
pub mod Best
pub mod Promoted
pub mod External
use vitess_operator.Prelude.{
  ℕ, Bool, true, false, ◌&&◌, ◌||◌, not, String, Option, none, some, List, [], ◌∷◌, Map, Answer, ok,
  err, ◌==◌, string_eq, if◌then◌else◌,
}
use vitess_operator.ShardDrain.{replication_requeue_delay}
use vitess_operator.Results.{Builder, new, requeue_after}

pub data ConditionStatus : Type 0 where
  condition_true condition_false condition_unknown condition_unset : ConditionStatus

abbrev pub is_condition_true : ConditionStatus → Bool
is_condition_true condition_true = true
is_condition_true condition_false = false
is_condition_true condition_unknown = false
is_condition_true condition_unset = false

-- The status of a tablet: whether its Pod is running, its type in the topology and that of its pool.
pub record TabletStatus : Type 0 where
  pub running : ConditionStatus
  pub kind : String
  pub pool_type : String

-- A tablet pool: whether it has an external datastore, and the name of its backup location.
pub record TabletPool : Type 0 where
  pub external_datastore : Bool
  pub backup_location_name : String

pub record Shard : Type 0 where
  pub tablet_pools : List TabletPool
  pub backup_locations : List String
  pub has_master : ConditionStatus
  pub has_initial_backup : ConditionStatus
  pub tablets : Map String TabletStatus

unfoldable pub using_external_datastore : List TabletPool → Bool
using_external_datastore [] = false
using_external_datastore (p ∷ pools) = p.external_datastore || using_external_datastore pools

-- `BackupLocation`: whether there is one of this name.
unfoldable pub has_backup_location : String → List String → Bool
has_backup_location name [] = false
has_backup_location name (location ∷ locations) =
    location == name || has_backup_location name locations

unfoldable pub backups_enabled : List TabletPool → List String → Bool
unfolding has_backup_location
backups_enabled [] locations = false
backups_enabled (p ∷ pools) locations =
    not (p.backup_location_name == "")
    || has_backup_location "" locations
    || backups_enabled pools locations

pub data Replication : Type 0 where
  -- The tablet replicates, it answers that it is no replica, or the call failed.
  replicating not_replica no_answer : Replication

pub record TabletEnv : Type 0 where
  -- `topoproto.ParseTabletAlias` takes the name, and the topology server has a record.
  pub alias_parses : String → Bool
  pub has_record : String → Bool
  pub replication : String → Replication
  pub database_name : String → String
  pub databases : String → Option (List String)
  -- `InitShardPrimary` succeeds.
  pub init_succeeds : String → Bool

unfoldable pub has_database : String → List String → Bool
has_database name [] = false
has_database name (row ∷ rows) = row == name || has_database name rows

-- `tabletDatabaseExists`: `none` is an error.
unfoldable pub tablet_database_exists : TabletEnv → String → Option Bool
unfolding has_database
tablet_database_exists env name =
    if env.database_name name == "" then none else elim (env.databases name) [
      | none ↦ none
      | some rows ↦ some (has_database (env.database_name name) rows)
    ]

-- `readyForShardInit`: whether it returns no error.
unfoldable pub ready_for_shard_init : TabletEnv → String → Bool
unfolding tablet_database_exists
ready_for_shard_init env name =
    env.has_record name
    && elim (env.replication name) [ replicating ↦ false | not_replica ↦ true | no_answer ↦ false ]
    && elim (tablet_database_exists env name) [ none ↦ false | some exists ↦ not exists ]

pub data Readiness : Type 0 where
  -- The last one asks for another look after a delay.
  ready not_ready look_again : Readiness

unfoldable pub check_tablets : Map String TabletStatus → Readiness
check_tablets [] = ready
check_tablets ((name, tablet) ∷ tablets) =
    if not (is_condition_true tablet.running)
    then not_ready
    else if tablet.kind == "master"
    then not_ready
    else if tablet.kind == "" || tablet.kind == "unknown"
    then look_again
    else if tablet.kind == "restore"
    then not_ready
    else check_tablets tablets

unfoldable pub check_populated : Map String TabletStatus → Readiness
unfolding check_tablets
check_populated [] = not_ready
check_populated (entry ∷ tablets) = check_tablets (entry ∷ tablets)

unfoldable pub ready_for_primary : Shard → Readiness
unfolding check_populated
ready_for_primary vts = elim vts.has_master [
  | condition_true ↦ not_ready
  | condition_unknown ↦ look_again
  | condition_false ↦ check_populated vts.tablets
  | condition_unset ↦ check_populated vts.tablets
]

-- The first tablet of type "replica". The loop stops at a name that does not parse: `none`.
unfoldable pub find_candidate :
    TabletEnv → Map String TabletStatus → Option String → Option (Option String)
find_candidate env [] candidate = some candidate
find_candidate env ((name, tablet) ∷ tablets) candidate =
    if not (env.alias_parses name)
    then none
    else find_candidate env tablets (elim candidate [
      | some c ↦ some c
      | none ↦ if tablet.kind == "replica" then some name else none
    ])

unfoldable pub all_ready : TabletEnv → Map String TabletStatus → Bool
unfolding ready_for_shard_init
all_ready env [] = true
all_ready env ((name, tablet) ∷ tablets) = ready_for_shard_init env name && all_ready env tablets

-- The tablet for which `InitShardPrimary` is called, if it is, and the results.
pub record InitPass (E : Type 0) : Type 0 where
  pub initialized : Option String
  pub results : Builder E

module _ {E : Type 0} where
  abbrev pub skip : InitPass E
  skip = record { initialized = none; results = new }

  abbrev pub skip_later : InitPass E
  skip_later = record { initialized = none; results = requeue_after replication_requeue_delay new }

  unfoldable pub init_shard_primary : TabletEnv → Shard → InitPass E
  unfolding using_external_datastore backups_enabled ready_for_primary find_candidate all_ready
  init_shard_primary env vts =
      if using_external_datastore vts.tablet_pools
        || backups_enabled vts.tablet_pools vts.backup_locations
      then skip
      else elim (ready_for_primary vts) [
        | not_ready ↦ skip
        | look_again ↦ skip_later
        | ready ↦ elim (find_candidate env vts.tablets none) [
          | none ↦ skip
          | some candidate ↦
              if not (all_ready env vts.tablets) then skip_later else elim candidate [
                | none ↦ skip
                | some alias ↦
                    if env.init_succeeds alias
                    then record { initialized = some alias; results = new }
                    else record {
                      initialized = some alias;
                      results = requeue_after replication_requeue_delay new;
                    }
              ]
        ]
      ]
