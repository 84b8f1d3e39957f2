-- ===== src/ShardDrain/Status.antt =====
-- `updateDrainStatus` and `isShardHealthy` of reconcile_drain.go.
use vitess_operator.Prelude.{
  String, Bool, true, false, ◌&&◌, ◌||◌, not, Option, none, some, [], ◌∷◌, Map, if◌then◌else◌,
  string_eq, ◌==◌,
}
use vitess_operator.Meta.{ObjectMeta}
use vitess_operator.Drain
use vitess_operator.Drain.{
  State, not_draining, draining, acknowledged_state, finished_state, state_transitions,
}
use vitess_operator.ShardDrain.Inputs.{condition_true}

-- The in-memory part of `updateDrainStatus`: the Pod's new metadata and `hasUpdated`. The panic is
-- `none`.
unfoldable pub touch : String → State → ObjectMeta → Option (ObjectMeta × Bool)
touch now finished_state meta =
    if not (Drain.finished meta) then some (Drain.finish now meta, true) else some (meta, false)
touch now acknowledged_state meta =
    if not (Drain.acknowledged meta)
    then some (Drain.acknowledge now meta, true)
    else some (meta, false)
touch now not_draining meta =
    let meta' = if Drain.finished meta then Drain.unfinish meta else meta in
    some (
      if Drain.acknowledged meta' then Drain.unacknowledge meta' else meta',
      Drain.finished meta || Drain.acknowledged meta',
    )
touch now draining meta = none

-- The shard is healthy if every tablet of its status is available.
unfoldable pub is_shard_healthy : Map String String → Bool
is_shard_healthy [] = true
is_shard_healthy ((name, available) ∷ tablets) =
    (available == condition_true) && is_shard_healthy tablets
