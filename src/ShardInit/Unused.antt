-- ===== src/ShardInit/Unused.antt =====
-- About `initShardPrimary`: when InitShardPrimary is called.
use vitess_operator.Prelude.{
  ◌≡◌, refl, ◌∙◌, ap, ◌⊎◌, inl, inr, true, false, ◌||◌, not, String, Option, none, some, [], ◌∷◌,
  Map, In, All, ◌==◌, string_eq, if◌then◌else◌, Bool-cases, arith,
}
use vitess_operator.ShardDrain.{replication_requeue_delay}
use vitess_operator.Results.{new, requeue_after}
use vitess_operator.ShardInit.{
  ConditionStatus, condition_true, condition_false, condition_unknown, condition_unset,
  is_condition_true, TabletStatus, Shard, using_external_datastore, backups_enabled, not_replica,
  TabletEnv, tablet_database_exists, ready_for_shard_init, Readiness, ready, not_ready, look_again,
  check_tablets, check_populated, ready_for_primary, find_candidate, all_ready, InitPass, skip,
  skip_later, init_shard_primary,
}

-- The tablet runs, claims no primary, does not restore a backup, never replicated, and has no
-- database.
pub record IsUnused (env : TabletEnv) (entry : String × TabletStatus) : Type 0 where
  pub running : is_condition_true entry.1.running ≡ true
  pub no_primary : (entry.1.kind == "master") ≡ false
  pub no_restore : (entry.1.kind == "restore") ≡ false
  pub no_replica : env.replication entry.0 ≡ not_replica
  pub no_database : tablet_database_exists env entry.0 ≡ some false

ready_for_shard_init_lem :
    (env : TabletEnv) (name : String)
    → ready_for_shard_init env name ≡ true
    → (env.replication name ≡ not_replica) × (tablet_database_exists env name ≡ some false)
unfolding ready_for_shard_init
ready_for_shard_init_lem env name e = (ground arith, ground arith)

checked :
    (env : TabletEnv) (tablets : Map String TabletStatus)
    → check_tablets tablets ≡ ready
    → all_ready env tablets ≡ true
    → All (IsUnused env) tablets
unfolding check_tablets all_ready
checked env [] c r = tt
checked env ((name, tablet) ∷ tablets) c r =
    let one = ready_for_shard_init_lem env name (ground arith) in
    (
      record {
        running = ground arith;
        no_primary = ground arith;
        no_restore = ground arith;
        no_replica = one.0;
        no_database = one.1;
      },
      checked env tablets (ground arith) (ground arith),
    )

find_candidate-some :
    (env : TabletEnv) (tablets : Map String TabletStatus) (c alias : String)
    → find_candidate env tablets (some c) ≡ some (some alias)
    → c ≡ alias
unfolding find_candidate
find_candidate-some env [] c alias e = ground arith
find_candidate-some env ((name, tablet) ∷ tablets) c alias e =
    find_candidate-some env tablets c alias (ground arith)

find_candidate-In :
    (env : TabletEnv) (tablets : Map String TabletStatus) (alias : String)
    → find_candidate env tablets none ≡ some (some alias)
    → (tablet : TabletStatus) × In (alias, tablet) tablets × ((tablet.kind == "replica") ≡ true)
unfolding find_candidate
find_candidate-In env [] alias e = absurd (ground arith)
find_candidate-In env ((name, tablet) ∷ tablets) alias e =
    elim (Bool-cases (tablet.kind == "replica")) [
      | inl k ↦
          let same = find_candidate-some env tablets name alias (ground arith) in
          (tablet, inl (ap (λ n. (n, tablet)) same), k)
      | inr k ↦ let (t, i, r) = find_candidate-In env tablets alias (ground arith) in (t, inr i, r)
    ]

-- What a call of InitShardPrimary for a tablet needs.
pub record IsCalled (env : TabletEnv) (vts : Shard) (alias : String) : Type 0 where
  pub local : using_external_datastore vts.tablet_pools ≡ false
  pub without_backups : backups_enabled vts.tablet_pools vts.backup_locations ≡ false
  pub primaryless : (vts.has_master ≡ condition_false) ⊎ (vts.has_master ≡ condition_unset)
  pub unused : All (IsUnused env) vts.tablets
  pub candidate :
      (tablet : TabletStatus) × In (alias, tablet) vts.tablets × ((tablet.kind == "replica") ≡ true)

populated :
    (tablets : Map String TabletStatus)
    → check_populated tablets ≡ ready
    → check_tablets tablets ≡ ready
unfolding check_populated
populated [] e = let f : not_ready ≡ ready = e in absurd (ground (arith, f))
populated (entry ∷ tablets) e = e

ready_from :
    (c : ConditionStatus) (tablets : Map String TabletStatus)
    → elim c as (λ x. Readiness) [
      | condition_true ↦ not_ready
      | condition_unknown ↦ look_again
      | condition_false ↦ check_populated tablets
      | condition_unset ↦ check_populated tablets
    ]
      ≡ ready
    → ((c ≡ condition_false) ⊎ (c ≡ condition_unset)) × (check_tablets tablets ≡ ready)
ready_from condition_true tablets e = absurd (ground arith)
ready_from condition_unknown tablets e = absurd (ground arith)
ready_from condition_false tablets e = (inl refl, populated tablets e)
ready_from condition_unset tablets e = (inr refl, populated tablets e)

ready_for_primary_lem :
    (vts : Shard)
    → ready_for_primary vts ≡ ready
    → ((vts.has_master ≡ condition_false) ⊎ (vts.has_master ≡ condition_unset))
      × (check_tablets vts.tablets ≡ ready)
unfolding ready_for_primary
ready_for_primary_lem vts e = ready_from vts.has_master vts.tablets e

abbrev IsCalledIf : {E : Type 0} → TabletEnv → Shard → InitPass E → Type 0
IsCalledIf env vts pass = (alias : String) → pass.initialized ≡ some alias → IsCalled env vts alias

-- InitShardPrimary is called only for a shard that has neither external datastores nor backups, and
-- whose status shows no primary, if every tablet runs, claims no primary, is not restoring, was never
-- a replica and has no database; and for one of its tablets of type replica.
pub init_shard_primary-IsCalled :
    (E : Type 0) (env : TabletEnv) (vts : Shard) (alias : String)
    → (init_shard_primary {E = E} env vts).initialized ≡ some alias
    → IsCalled env vts alias
unfolding init_shard_primary
init_shard_primary-IsCalled E env vts =
    elim (Bool-cases (
      using_external_datastore vts.tablet_pools
      || backups_enabled vts.tablet_pools vts.backup_locations)) [
        | inl b ↦ rw b none_called
        | inr b ↦ rw b (of_ready (ground arith) (ground arith) (ready_for_primary vts) refl)
      ]
  where
    none_called : (alias : String) → none ≡ some alias → IsCalled env vts alias
    none_called alias e = absurd (ground arith)

    called :
        using_external_datastore vts.tablet_pools ≡ false
        → backups_enabled vts.tablet_pools vts.backup_locations ≡ false
        → ready_for_primary vts ≡ ready
        → (c : Option String) → find_candidate env vts.tablets none ≡ some c
        → all_ready env vts.tablets ≡ true
        → IsCalledIf {E = E} env vts (elim c [
          | none ↦ skip
          | some alias ↦
              if env.init_succeeds alias
              then record { initialized = some alias; results = new }
              else record {
                initialized = some alias;
                results = requeue_after replication_requeue_delay new;
              }
        ])
    called l w r none c a alias e = none_called alias e
    called l w r (some candidate) c a alias e =
        let same : candidate ≡ alias = ground arith in
        let state = ready_for_primary_lem vts r in
        record {
          local = l;
          without_backups = w;
          primaryless = state.0;
          unused = checked env vts.tablets state.1 a;
          candidate = find_candidate-In env vts.tablets alias (c ∙ ap (λ x. some (some x)) same);
        }

    of_candidate :
        using_external_datastore vts.tablet_pools ≡ false
        → backups_enabled vts.tablet_pools vts.backup_locations ≡ false
        → ready_for_primary vts ≡ ready
        → (c : Option (Option String)) → find_candidate env vts.tablets none ≡ c
        → IsCalledIf {E = E} env vts (elim c [
          | none ↦ skip
          | some candidate ↦
              if not (all_ready env vts.tablets) then skip_later else elim candidate [
                | none ↦ skip
                | some alias ↦
                    if env.init_succeeds alias
                    then record { initialized = some alias; results = new }
                    else record {
                      initialized = some alias;
                      results = requeue_after replication_requeue_delay new;
                    }
              ]
        ])
    of_candidate l w r none c = none_called
    of_candidate l w r (some candidate) c = elim (Bool-cases (all_ready env vts.tablets)) [
      | inl a ↦ rw a (called l w r candidate c a)
      | inr a ↦ rw a none_called
    ]

    of_ready :
        using_external_datastore vts.tablet_pools ≡ false
        → backups_enabled vts.tablet_pools vts.backup_locations ≡ false
        → (r : Readiness) → ready_for_primary vts ≡ r
        → IsCalledIf {E = E} env vts (elim r [
          | not_ready ↦ skip
          | look_again ↦ skip_later
          | ready ↦ elim (find_candidate env vts.tablets none) [
            | none ↦ skip
            | some candidate ↦
                if not (all_ready env vts.tablets) then skip_later else elim candidate [
                  | none ↦ skip
                  | some alias ↦
                      if env.init_succeeds alias
                      then record { initialized = some alias; results = new }
                      else record {
                        initialized = some alias;
                        results = requeue_after replication_requeue_delay new;
                      }
                ]
          ]
        ])
    of_ready l w not_ready r = none_called
    of_ready l w look_again r = none_called
    of_ready l w ready r = of_candidate l w r (find_candidate env vts.tablets none) refl
