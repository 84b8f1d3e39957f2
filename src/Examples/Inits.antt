-- ===== src/Examples/Inits.antt =====
-- Shards that get their first primary.
use vitess_operator.Prelude.{
  ◌≡◌, refl, sym, subst, inl, ℕ, Bool, true, false, none, some, [], ◌∷◌, ◌&&◌, In, leb, arith,
  string_eq, ◌==◌, if◌then◌else◌,
}
use vitess_operator.ShardInit.{
  Shard, TabletEnv, condition_true, condition_false, not_replica, init_shard_primary,
  using_external_datastore, backups_enabled, has_backup_location, ready_for_primary,
  check_populated, check_tablets, find_candidate, all_ready, ready_for_shard_init,
  tablet_database_exists, has_database,
}
use vitess_operator.ShardInit.Unused.{IsCalled, init_shard_primary-IsCalled}
use vitess_operator.ShardInit.Elect.{
  replica_kind, rdonly_kind, ElectEnv, promote_replica, set_shard_primary, set_replication_source,
  init_restored_shard, init_without_primary, found_candidate_primary, elect_initial_shard_primary,
  elect_among, find_existing_primary, elect_replica, promote_candidate, promote, collect_statuses,
  get_tablet_status, reparent_others, Tablet,
}
use vitess_operator.ShardInit.Best.{IsReady, IsPositionOrder}
use vitess_operator.ShardInit.Promoted.{IsElected, init_restored_shard-IsElected}

abbrev new_shard : Shard
new_shard = record {
  tablet_pools = record { external_datastore = false; backup_location_name = "" } ∷ [];
  backup_locations = [];
  has_master = condition_false;
  has_initial_backup = condition_false;
  tablets =
      ("a-1", record { running = condition_true; kind = "rdonly"; pool_type = "rdonly" })
      ∷ ("a-2", record { running = condition_true; kind = "replica"; pool_type = "replica" })
      ∷ [];
}

abbrev new_tablets : TabletEnv
new_tablets = record {
  alias_parses = λ name. true;
  has_record = λ name. true;
  replication = λ name. not_replica;
  database_name = λ name. "vt_main";
  databases = λ name. some ("mysql" ∷ []);
  init_succeeds = λ name. true;
}

new_shard_run : (init_shard_primary {E = ℕ} new_tablets new_shard).initialized ≡ some "a-2"
unfolding init_shard_primary using_external_datastore backups_enabled has_backup_location
    ready_for_primary check_populated check_tablets find_candidate all_ready ready_for_shard_init
    tablet_database_exists has_database
new_shard_run = refl

init_shard_primary-IsCalled_example : IsCalled new_tablets new_shard "a-2"
init_shard_primary-IsCalled_example =
    init_shard_primary-IsCalled ℕ new_tablets new_shard "a-2" new_shard_run

abbrev restored_shard : Shard
restored_shard = record new_shard {
  backup_locations = "" ∷ [];
  has_initial_backup = condition_true;
}

-- Positions count the transactions of two servers; the second replica is farther ahead.
abbrev restored_tablets : ElectEnv (ℕ × ℕ)
restored_tablets = record {
  locks = true;
  shard_primary = some none;
  durability_known = true;
  tablets = some (
      record { alias = "a-1"; kind = rdonly_kind }
      ∷ record { alias = "a-2"; kind = replica_kind }
      ∷ record { alias = "a-3"; kind = replica_kind }
      ∷ []);
  still_locked = true;
  update_succeeds = true;
  promote_succeeds = true;
  arrival = 1 ∷ [];
  replication = λ t. not_replica;
  position = λ t. some (if t.alias == "a-3" then (7, 2) else (5, 1));
  database_exists = λ t. some true;
  at_least = λ p q. leb q.0 p.0 && leb q.1 p.1;
}

restored_shard_run :
    init_restored_shard restored_tablets restored_shard
    ≡ promote_replica "a-3"
      ∷ set_shard_primary "a-3"
      ∷ set_replication_source "a-2"
      ∷ set_replication_source "a-1"
      ∷ []
unfolding init_restored_shard using_external_datastore backups_enabled has_backup_location
    init_without_primary found_candidate_primary elect_initial_shard_primary elect_among
    find_existing_primary elect_replica promote_candidate promote collect_statuses get_tablet_status
    reparent_others
restored_shard_run = refl

abbrev position_of : Bool → ℕ × ℕ
position_of true = (7, 2)
position_of false = (5, 1)

compares :
    (b c : Bool)
    → restored_tablets.at_least (position_of b) (position_of c) ≡ false
    → restored_tablets.at_least (position_of c) (position_of b) ≡ true
compares true true e = refl
compares true false e = absurd (ground arith)
compares false true e = refl
compares false false e = refl

reported :
    (t : Tablet) (p : ℕ × ℕ) → IsReady restored_tablets t p → p ≡ position_of (t.alias == "a-3")
unfolding get_tablet_status
reported t p h = ground (arith, h.1)

restored_tablets-IsPositionOrder : IsPositionOrder restored_tablets
restored_tablets-IsPositionOrder = record {
  refl = λ p. ground arith;
  trans = λ p q r d e. ground arith;
  comparable = λ ts l t u p q i j k m e.
      let tp = reported t p k in
      let uq = reported u q m in
      subst (λ x. restored_tablets.at_least q x ≡ true) (sym tp)
        (subst (λ y. restored_tablets.at_least y (position_of (t.alias == "a-3")) ≡ true) (sym uq)
          (compares (t.alias == "a-3") (u.alias == "a-3") (
            subst (λ y. restored_tablets.at_least (position_of (t.alias == "a-3")) y ≡ false) uq
              (subst (λ x. restored_tablets.at_least x q ≡ false) tp e))));
}

promoted : In (promote_replica "a-3") (init_restored_shard restored_tablets restored_shard)
promoted = subst (In (promote_replica "a-3")) (sym restored_shard_run) (inl refl)

init_restored_shard-IsElected_example : IsElected restored_tablets restored_shard "a-3"
init_restored_shard-IsElected_example =
    init_restored_shard-IsElected restored_tablets restored_tablets-IsPositionOrder "a-3"
      restored_shard promoted
