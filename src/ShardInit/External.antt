-- ===== src/ShardInit/External.antt =====
-- pkg/controller/vitessshardreplication/tablet_externally_reparent.go, and `initReplication` of
-- vitessshardreplication_controller.go: the three passes that may give a shard its first primary.
use vitess_operator.Prelude.{
  Bool, ◌&&◌, not, String, Option, none, some, List, [], ◌∷◌, Map, ◌==◌, string_eq, if◌then◌else◌,
}
use vitess_operator.ShardInit.{
  is_condition_true, TabletStatus, Shard, TabletEnv, using_external_datastore, init_shard_primary,
}
use vitess_operator.ShardInit.Elect.{ElectEnv, Call, init_restored_shard}

abbrev pub is_external_master : TabletStatus → Bool
is_external_master tablet = tablet.pool_type == "externalmaster"

-- The first running tablet of an external primary pool; a name that does not parse ends the pass.
unfoldable pub find_external_primary : (String → Bool) → Map String TabletStatus → Option String
find_external_primary alias_parses [] = none
find_external_primary alias_parses ((name, tablet) ∷ tablets) =
    if not (is_external_master tablet && is_condition_true tablet.running)
    then find_external_primary alias_parses tablets
    else if alias_parses name
    then some name
    else none

-- `tabletExternallyReparent`: the tablet for which it is called. `record_has_primary` is what the
-- shard record says; an error counts as no.
unfoldable pub tablet_externally_reparent : (String → Bool) → Bool → Shard → Option String
unfolding using_external_datastore find_external_primary
tablet_externally_reparent alias_parses record_has_primary vts =
    if not (using_external_datastore vts.tablet_pools)
    then none
    else if is_condition_true vts.has_master
    then none
    else if record_has_primary
    then none
    else find_external_primary alias_parses vts.tablets

-- What the passes do, in their order.
pub record Replicated : Type 0 where
  pub initialized : Option String
  pub reparented : Option String
  pub restored : List Call

unfoldable pub init_replication :
    {P : Type 0} → Bool → TabletEnv → Bool → ElectEnv P → Shard → Replicated
unfolding init_shard_primary tablet_externally_reparent init_restored_shard
init_replication initialize_master env record_has_primary elect vts =
    if not initialize_master
    then record { initialized = none; reparented = none; restored = [] }
    else record {
      initialized = (init_shard_primary {E = Unit} env vts).initialized;
      reparented = tablet_externally_reparent env.alias_parses record_has_primary vts;
      restored = init_restored_shard elect vts;
    }
