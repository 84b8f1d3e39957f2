-- ===== src/ShardInit/Elect.antt =====
-- pkg/controller/vitessshardreplication/init_restored_shard.go: the first primary of a shard whose
-- tablets were restored from a backup.
--
-- A replication position is of any type with `at_least`. `arrival` gives the order in which the
-- checks of the tablets come in. The calls that change something come back as a list.
use vitess_operator.Prelude.{
  ℕ, arrive, Bool, true, false, ◌&&◌, ◌||◌, not, String, Option, none, some, List, [], ◌∷◌, ◌++◌,
  Map, ◌==◌, string_eq, if◌then◌else◌,
}
use vitess_operator.ShardInit.{
  condition_true, condition_false, condition_unknown, condition_unset, is_condition_true,
  TabletStatus, Shard, using_external_datastore, backups_enabled, Replication, replicating,
  not_replica, no_answer,
}

-- `topodata.TabletType`, as far as the election tells the types apart.
pub data TabletKind : Type 0 where
  primary_kind replica_kind rdonly_kind other_kind : TabletKind

pub record Tablet : Type 0 where
  pub alias : String
  pub kind : TabletKind

pub data Call : Type 0 where
  set_shard_primary promote_replica set_replication_source : String → Call

pub record ElectEnv (P : Type 0) : Type 0 where
  pub locks : Bool
  -- The shard record: `none` is an error, `some none` a record without a primary.
  pub shard_primary : Option (Option String)
  pub durability_known : Bool
  pub tablets : Option (List Tablet)
  pub still_locked : Bool
  pub update_succeeds : Bool
  pub promote_succeeds : Bool
  pub arrival : List ℕ
  -- The checks of a tablet.
  pub replication : Tablet → Replication
  pub position : Tablet → Option P
  pub database_exists : Tablet → Option Bool
  pub at_least : P → P → Bool

-- The tablets that claim to be the primary.
pub data Claims : Type 0 where
  nobody many : Claims
  one : Tablet → Claims

unfoldable pub find_existing_primary : List Tablet → Claims → Claims
find_existing_primary [] existing = existing
find_existing_primary (t ∷ tablets) existing = elim t.kind [
  | primary_kind ↦ elim existing [
    | nobody ↦ find_existing_primary tablets (one t)
    | one _ ↦ many
    | many ↦ many
  ]
  | replica_kind ↦ find_existing_primary tablets existing
  | rdonly_kind ↦ find_existing_primary tablets existing
  | other_kind ↦ find_existing_primary tablets existing
]

module _ {P : Type 0} (env : ElectEnv P) where
  -- `getTabletStatus`: the position, and whether the database exists; `none` is an error.
  unfoldable pub get_tablet_status : Tablet → Option (P × Bool)
  get_tablet_status t = elim (env.replication t) [
    | no_answer ↦ none
    | replicating ↦ elim (env.position t) [
      | none ↦ none
      | some p ↦ elim (env.database_exists t) [ none ↦ none | some exists ↦ some (p, exists) ]
    ]
    | not_replica ↦ elim (env.position t) [
      | none ↦ none
      | some p ↦ elim (env.database_exists t) [ none ↦ none | some exists ↦ some (p, exists) ]
    ]
  ]

  abbrev pub better : Option (Tablet × P) → Tablet × P → Option (Tablet × P)
  better none status = some status
  better (some candidate) status =
      if not (env.at_least candidate.1 status.1) then some status else some candidate

  -- The loop over the answers: the candidate, and the tablets that are done restoring.
  unfoldable pub collect_statuses :
      List Tablet → Option (Tablet × P) → List Tablet → Option (Tablet × P) × List Tablet
  unfolding get_tablet_status
  collect_statuses [] candidate restored = (candidate, restored)
  collect_statuses (t ∷ tablets) candidate restored = elim (get_tablet_status t) [
    | none ↦ collect_statuses tablets candidate restored
    | some (p, false) ↦ collect_statuses tablets candidate restored
    | some (p, true) ↦ elim t.kind [
      | replica_kind ↦ collect_statuses tablets (better candidate (t, p)) (restored ++ t ∷ [])
      | rdonly_kind ↦ collect_statuses tablets candidate (restored ++ t ∷ [])
      | primary_kind ↦ collect_statuses tablets candidate restored
      | other_kind ↦ collect_statuses tablets candidate restored
    ]
  ]

  -- The other tablets are told to replicate from the new primary.
  unfoldable pub reparent_others : String → List Tablet → List Call
  reparent_others primary [] = []
  reparent_others primary (t ∷ restored) =
      let rest = reparent_others primary restored in
      if t.alias == primary then rest else set_replication_source t.alias ∷ rest

  unfoldable pub promote : Tablet → List Tablet → List Call
  unfolding reparent_others
  promote t restored =
      if not env.still_locked
      then []
      else if not env.promote_succeeds
      then promote_replica t.alias ∷ []
      else if not env.update_succeeds
      then promote_replica t.alias ∷ set_shard_primary t.alias ∷ []
      else promote_replica t.alias ∷ set_shard_primary t.alias ∷ reparent_others t.alias restored

  unfoldable pub promote_candidate : Option (Tablet × P) × List Tablet → List Call
  unfolding promote
  promote_candidate (none, restored) = []
  promote_candidate (some (t, p), restored) = promote t restored

  unfoldable pub elect_replica : List Tablet → List Call
  unfolding collect_statuses promote_candidate
  elect_replica tablets = promote_candidate (collect_statuses (arrive env.arrival tablets) none [])

  unfoldable pub elect_among : List Tablet → List Call
  unfolding find_existing_primary elect_replica
  elect_among tablets = elim (find_existing_primary tablets nobody) [
    | many ↦ []
    | one t ↦ if env.still_locked then set_shard_primary t.alias ∷ [] else []
    | nobody ↦ elect_replica tablets
  ]

  -- `electInitialShardPrimary`, as far as its calls go.
  unfoldable pub elect_initial_shard_primary : List Call
  unfolding elect_among
  elect_initial_shard_primary = if not env.locks then [] else elim env.shard_primary [
    | none ↦ []
    | some (some alias) ↦ []
    | some none ↦
        if not env.durability_known
        then []
        else elim env.tablets [ none ↦ [] | some tablets ↦ elect_among tablets ]
  ]

-- Whether a tablet is running that may be elected.
unfoldable pub found_candidate_primary : Map String TabletStatus → Bool
found_candidate_primary [] = false
found_candidate_primary ((name, tablet) ∷ tablets) =
    is_condition_true tablet.running && (tablet.kind == "replica" || tablet.kind == "master")
    || found_candidate_primary tablets

-- `initRestoredShard`, as far as its calls go.
unfoldable pub init_without_primary : {P : Type 0} → ElectEnv P → Shard → List Call
unfolding found_candidate_primary elect_initial_shard_primary
init_without_primary env vts =
    if not (is_condition_true vts.has_initial_backup)
    then []
    else if not (found_candidate_primary vts.tablets)
    then []
    else elect_initial_shard_primary env

unfoldable pub init_restored_shard : {P : Type 0} → ElectEnv P → Shard → List Call
unfolding using_external_datastore backups_enabled init_without_primary
init_restored_shard env vts =
    if not (backups_enabled vts.tablet_pools vts.backup_locations)
      || using_external_datastore vts.tablet_pools
    then []
    else elim vts.has_master [
      | condition_true ↦ []
      | condition_unknown ↦ []
      | condition_false ↦ init_without_primary env vts
      | condition_unset ↦ init_without_primary env vts
    ]
