-- ===== src/DrainProtocol.antt =====
-- The drain protocol between the drainers, the API server, the controller's cache and its passes, as
-- a step relation. It puts together `Start` of the drainers (pkg/operator/drain/drain.go), and of
-- the controller (pkg/controller/vitessshardreplication/reconcile_drain.go) the read of the Pods
-- from the cache, `StateTransitions`, `updateDrainStatus` and the update with optimistic locking.
--
-- The cache lags behind the server: `queue` holds the changes that it has not seen yet, in order.
-- One pass runs at a time, on the Pods as it read them from the cache (`snap`). Its writes may
-- come in any order, fail, or be left out. No Pod is deleted and no drain is aborted, which is what
-- the doc comment of `reconcileDrain` asks for.
mod History
mod Phases
mod Plan
mod Invariant
mod Steps
pub mod Safety
use vitess_operator.Prelude.{
  ◌≡◌, String, Bool, true, false, Option, none, some, List, [], ◌∷◌, ◌++◌, Map, lookup, insert, In,
  if◌then◌else◌, string_eq, ◌==◌,
}
use vitess_operator.Meta.{ObjectMeta}
use vitess_operator.Drain.{State, state_transitions, started, get_state, start}
use vitess_operator.Drain.Annotations.{reads}
use vitess_operator.ShardDrain.{touch}

-- The Pods of the shard, by alias.
abbrev pub Pods : Type 0
Pods = String → ObjectMeta

abbrev pub set : String → ObjectMeta → Pods → Pods
set n m pods k = if k == n then m else pods k

pub record World : Type 0 where
  -- The Pods on the server, in the cache, and as the running pass read them.
  pub cur : Pods
  pub view : Pods
  pub snap : Pods
  -- The changes that the cache has not seen, the oldest first.
  pub queue : List (String × ObjectMeta)

-- The map `drains` that a pass computes of the Pods that it has read.
unfoldable pub drains_of : List String → Pods → Map String State
drains_of [] pods = []
drains_of (n ∷ ns) pods =
    let rest = drains_of ns pods in
    if started (pods n) then insert n (get_state (pods n)).0 rest else rest

-- A change of a Pod on the server.
abbrev pub change : String → ObjectMeta → World → World
change n m w = record w { cur = set n m w.cur; queue = w.queue ++ (n, m) ∷ [] }

module _ (names : List String) where
  pub data Step (w : World) : World → Type 0 where
    -- A drainer asks for a drain.
    request : (n message : String) → In n names → Step w (change n (start (w.cur n) message) w)
    -- Somebody changes a Pod without touching the drain annotations.
    other : (n : String) (m : ObjectMeta) → reads m ≡ reads (w.cur n) → Step w (change n m w)
    -- The cache sees the next change.
    sync :
        (n : String) (m : ObjectMeta) (rest : List (String × ObjectMeta))
        → w.queue ≡ (n, m) ∷ rest
        → Step w (record w { view = set n m w.view; queue = rest })
    -- A pass begins.
    begin_pass : Step w (record w { snap = w.view })
    -- The pass writes one of its transitions. The server takes it only if the Pod is still as the
    -- pass read it.
    write :
        (n now : String) (state : State) (m : ObjectMeta) (changed : Bool)
        → lookup n (state_transitions (drains_of names w.snap)) ≡ some state
        → touch now state (w.snap n) ≡ some (m, changed)
        → w.cur n ≡ w.snap n
        → Step w (change n m w)

  pub data Reach (w : World) : World → Type 0 where
    here : Reach w w
    next : {u v : World} → Reach w u → Step u v → Reach w v
