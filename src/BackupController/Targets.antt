-- ===== src/BackupController/Targets.antt =====
-- vitessbackupschedule_controller.go: which shards the strategies of a schedule back up.
--
-- A keyspace is listed with the names of the shards in its status. `ks_of` answers the listing of the
-- keyspaces of a cluster. `ExtraFlags` is passed on; what is logged is left out.
use Prim.Native.String.{◌++◌}
use mathlib.Core.List.{◌++◌ as ◌+++◌}
use vitess_operator.Prelude.{
  Bool, true, false, ◌&&◌, not, String, Option, none, some, List, [], ◌∷◌, Map, lookup, insert,
  Answer, ok, err, ◌==◌, string_eq, if◌then◌else◌, or_zero, str_lt, sort_by, ℕ,
}
use vitess_operator.KeyRanges.{safe_name, cut_dash}
use vitess_operator.BackupSchedule.{
  Strategy, Problem, unknown_scope, scope_shard, scope_keyspace, scope_cluster, is_set,
  validate_strategies, validate_schedule_config,
}

pub record Keyspace : Type 0 where
  pub name : String
  pub shards : List String

-- Keyspaces without shards are left out, and the shards are sorted.
unfoldable pub with_shards : List Keyspace → List Keyspace
unfolding sort_by
with_shards [] = []
with_shards (ks ∷ items) = elim ks.shards [
  | [] ↦ with_shards items
  | shard ∷ shards ↦
      record { name = ks.name; shards = sort_by str_lt (shard ∷ shards) } ∷ with_shards items
]

abbrev pub name_less : Keyspace → Keyspace → Bool
name_less a b = str_lt a.name b.name

unfoldable pub get_all_shards_in_cluster :
    {E : Type 0} → Answer (List Keyspace) E → Answer (List Keyspace) E
unfolding with_shards sort_by
get_all_shards_in_cluster (err e) = err e
get_all_shards_in_cluster (ok items) = ok (sort_by name_less (with_shards items))

unfoldable pub shard_safe_name : String → String
unfolding cut_dash safe_name
shard_safe_name shard = elim (cut_dash shard) [
  | none ↦ shard
  | some (start, end) ↦ safe_name (record { start = start; end = end })
]

unfoldable pub expand_to_shards : Strategy → String → List String → List Strategy
unfolding shard_safe_name
expand_to_shards base ks_name [] = []
expand_to_shards base ks_name (shard ∷ shards) =
    record {
      name = base.name ++ ("-" ++ (ks_name ++ ("-" ++ shard_safe_name shard)));
      scope = scope_shard;
      keyspace = ks_name;
      shard = shard;
      extra_flags = base.extra_flags;
    }
    ∷ expand_to_shards base ks_name shards

pub record ExpansionContext : Type 0 where
  pub all_keyspaces : List Keyspace
  pub excluded_keyspaces : Map String Bool
  pub shards_by_keyspace : Map String (List String)

-- `excluded[name]`
abbrev pub is_excluded : Map String Bool → String → Bool
is_excluded excluded name = or_zero false (lookup name excluded)

unfoldable pub index_shards : List Keyspace → Map String (List String) → Map String (List String)
index_shards [] index = index
index_shards (ks ∷ keyspaces) index = index_shards keyspaces (insert ks.name ks.shards index)

unfoldable pub new_strategy_expansion_context : List Keyspace → Map String Bool → ExpansionContext
unfolding index_shards
new_strategy_expansion_context all_keyspaces excluded = record {
  all_keyspaces = all_keyspaces;
  excluded_keyspaces = excluded;
  shards_by_keyspace = index_shards all_keyspaces [];
}

unfoldable pub expand_cluster : Strategy → Map String Bool → List Keyspace → List Strategy
unfolding expand_to_shards
expand_cluster strategy excluded [] = []
expand_cluster strategy excluded (ks ∷ keyspaces) =
    let rest = expand_cluster strategy excluded keyspaces in
    if is_excluded excluded ks.name
    then rest
    else expand_to_shards strategy ks.name ks.shards +++ rest

unfoldable pub expand_scope : ExpansionContext → Strategy → String → Answer (List Strategy) Problem
unfolding expand_to_shards expand_cluster
expand_scope ctx strategy scope =
    if scope == scope_shard
    then ok (strategy ∷ [])
    else if scope == scope_keyspace
    then ok (
        expand_to_shards strategy strategy.keyspace
          (or_zero [] (lookup strategy.keyspace ctx.shards_by_keyspace)))
    else if scope == scope_cluster
    then ok (expand_cluster strategy ctx.excluded_keyspaces ctx.all_keyspaces)
    else err unknown_scope

unfoldable pub expand_strategy : ExpansionContext → Strategy → Answer (List Strategy) Problem
unfolding expand_scope
expand_strategy ctx strategy =
    expand_scope ctx strategy (if is_set strategy.scope then strategy.scope else scope_shard)

abbrev pub target : Strategy → String
target strategy = strategy.keyspace ++ ("/" ++ strategy.shard)

-- What is wrong with the targets.
pub data TargetProblem : Type 0 where
  bad_strategy : Problem → TargetProblem
  duplicate_target : String → TargetProblem

-- The inner loop: the targets seen, or one seen twice.
unfoldable pub see_targets :
    List Strategy → Map String String → Answer (Map String String) TargetProblem
see_targets [] seen = ok seen
see_targets (s ∷ expanded) seen = elim (lookup (target s) seen) [
  | some existing ↦ err (duplicate_target (target s))
  | none ↦ see_targets expanded (insert (target s) s.name seen)
]

unfoldable pub see_strategies :
    ExpansionContext → List Strategy → Map String String → Option TargetProblem
unfolding expand_strategy see_targets
see_strategies ctx [] seen = none
see_strategies ctx (strategy ∷ strategies) seen = elim (expand_strategy ctx strategy) [
  | err e ↦ some (bad_strategy e)
  | ok expanded ↦ elim (see_targets expanded seen) [
    | err e ↦ some e
    | ok seen' ↦ see_strategies ctx strategies seen'
  ]
]

unfoldable pub validate_no_duplicate_expanded_shard_targets :
    ExpansionContext → List Strategy → Option TargetProblem
unfolding see_strategies
validate_no_duplicate_expanded_shard_targets ctx strategies = see_strategies ctx strategies []

unfoldable pub exclude_keyspaces : List Strategy → Map String Bool → Map String Bool
exclude_keyspaces [] excluded = excluded
exclude_keyspaces (s ∷ strategies) excluded = exclude_keyspaces strategies (
    if s.scope == scope_keyspace && is_set s.keyspace
    then insert s.keyspace true excluded
    else excluded)

unfoldable pub local_excluded_keyspaces : List Strategy → Map String Bool
unfolding exclude_keyspaces
local_excluded_keyspaces strategies = exclude_keyspaces strategies []

-- A VitessBackupSchedule.
pub record Schedule : Type 0 where
  pub name : String
  pub cluster : String
  pub suspend : Option Bool
  pub schedule : String
  pub frequency : String
  pub strategies : List Strategy

abbrev pub schedule_suspended : Schedule → Bool
schedule_suspended s = or_zero false s.suspend

module _ {E : Type 0} (parse_duration : String → Option ℕ)
    (ks_of : String → Answer (List Keyspace) E) where
  unfoldable pub build_local_strategy_expansion_context : Schedule → Answer ExpansionContext E
  unfolding get_all_shards_in_cluster local_excluded_keyspaces new_strategy_expansion_context
  build_local_strategy_expansion_context s = elim (get_all_shards_in_cluster (ks_of s.cluster)) [
    | err e ↦ err e
    | ok keyspaces ↦
        ok (new_strategy_expansion_context keyspaces (local_excluded_keyspaces s.strategies))
  ]

  -- Whether another schedule of the cluster is active and its configuration valid.
  abbrev pub is_peer : Schedule → Schedule → Bool
  unfolding validate_schedule_config validate_strategies
  is_peer s peer =
      not (peer.name == s.name)
      && peer.cluster == s.cluster
      && not (schedule_suspended peer)
      && elim (validate_schedule_config parse_duration peer.schedule peer.frequency) [
        | none ↦ true
        | some problem ↦ false
      ]
      && elim (validate_strategies peer.strategies) [ none ↦ true | some problem ↦ false ]

  unfoldable pub exclude_peers :
      Schedule → List Schedule → Map String Bool → Answer (Map String Bool) E
  unfolding build_local_strategy_expansion_context validate_no_duplicate_expanded_shard_targets
      exclude_keyspaces
  exclude_peers s [] excluded = ok excluded
  exclude_peers s (peer ∷ schedules) excluded = elim (is_peer s peer) [
    | false ↦ exclude_peers s schedules excluded
    | true ↦ elim (build_local_strategy_expansion_context peer) [
      | err e ↦ err e
      | ok ctx ↦ elim (validate_no_duplicate_expanded_shard_targets ctx peer.strategies) [
        | some problem ↦ exclude_peers s schedules excluded
        | none ↦ exclude_peers s schedules (exclude_keyspaces peer.strategies excluded)
      ]
    ]
  ]

  unfoldable pub get_excluded_keyspaces :
      Schedule → Answer (List Schedule) E → Answer (Map String Bool) E
  unfolding exclude_keyspaces exclude_peers
  get_excluded_keyspaces s (err e) = err e
  get_excluded_keyspaces s (ok all_schedules) =
      exclude_peers s all_schedules
        (if schedule_suspended s then [] else exclude_keyspaces s.strategies [])

  unfoldable pub build_strategy_expansion_context :
      Schedule → Answer (List Schedule) E → Answer ExpansionContext E
  unfolding get_all_shards_in_cluster get_excluded_keyspaces new_strategy_expansion_context
  build_strategy_expansion_context s all_schedules =
      elim (get_all_shards_in_cluster (ks_of s.cluster)) [
        | err e ↦ err e
        | ok keyspaces ↦ elim (get_excluded_keyspaces s all_schedules) [
          | err e ↦ err e
          | ok excluded ↦ ok (new_strategy_expansion_context keyspaces excluded)
        ]
      ]
