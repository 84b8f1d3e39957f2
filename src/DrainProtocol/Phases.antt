-- ===== src/DrainProtocol/Phases.antt =====
-- How far a Pod's drain has come, as a number.
use vitess_operator.Prelude.{
  ◌≡◌, ℕ, ◌≤◌, ◌⊎◌, String, Bool, true, false, some, arith, if◌then◌else◌,
}
use vitess_operator.Meta.{ObjectMeta}
use vitess_operator.Drain.{
  draining, acknowledged_state, finished_state, started, acknowledged, finished, start, get_state,
}
use vitess_operator.Drain.Annotations.{reads, reads-start, reads-acknowledge, reads-finish}
use vitess_operator.ShardDrain.{touch}

-- 0: no drain; 1: requested; 2: acknowledged; 3: finished.
unfoldable pub phase : ObjectMeta → ℕ
phase m = if started m then if finished m then 3 else if acknowledged m then 2 else 1 else 0

-- The annotations come in the order of the protocol.
pub record IsSane (m : ObjectMeta) : Type 0 where
  pub acknowledged_started : acknowledged m ≡ true → started m ≡ true
  pub finished_acknowledged : finished m ≡ true → acknowledged m ≡ true

pub phase-bound : (m : ObjectMeta) → phase m ≤ 3
unfolding phase
phase-bound m = ground arith

pub phase-start :
    (m : ObjectMeta) (message : String)
    → IsSane m
    → IsSane (start m message)
      × ((phase m ≡ 0) × (phase (start m message) ≡ 1)
          ⊎ (1 ≤ phase m) × (phase (start m message) ≡ phase m))
unfolding phase reads
phase-start m message h = ground (arith, reads-start m message)

pub phase-other :
    (m old : ObjectMeta) → reads m ≡ reads old → IsSane old → IsSane m × (phase m ≡ phase old)
unfolding phase reads
phase-other m old e h = ground arith

pub phase-acknowledge :
    (m : ObjectMeta) (now : String) {m' : ObjectMeta} {changed : Bool}
    → IsSane m
    → phase m ≡ 1
    → touch now acknowledged_state m ≡ some (m', changed)
    → IsSane m' × (phase m' ≡ 2)
unfolding phase reads touch
phase-acknowledge m now h e t = ground (arith, reads-acknowledge m now)

pub phase-finish :
    (m : ObjectMeta) (now : String) {m' : ObjectMeta} {changed : Bool}
    → IsSane m
    → phase m ≡ 2
    → touch now finished_state m ≡ some (m', changed)
    → IsSane m' × (phase m' ≡ 3)
unfolding phase reads touch
phase-finish m now h e t = ground (arith, reads-finish m now)

-- The state that a pass computes of a Pod with a drain request.
pub phase-get_state :
    (m : ObjectMeta)
    → started m ≡ true
    → ((phase m ≡ 1) × ((get_state m).0 ≡ draining))
      ⊎ (((phase m ≡ 2) × ((get_state m).0 ≡ acknowledged_state))
          ⊎ ((phase m ≡ 3) × ((get_state m).0 ≡ finished_state)))
unfolding phase get_state
phase-get_state m e = ground arith

pub phase-not_started : (m : ObjectMeta) → started m ≡ false → phase m ≡ 0
unfolding phase
phase-not_started m e = ground arith
