-- ===== src/Examples/Protocol.antt =====
-- The drain protocol and the choice of a primary at concrete inputs.
use vitess_operator.Prelude.{
  ◌≡◌, is_some, refl, ◌↔◌, ℕ, String, List, [], ◌∷◌, none, some, true, false, ok, err, lookup,
  insert, sort_by, inl, string_eq,
}
use vitess_operator.Meta.{ObjectMeta}
use vitess_operator.Drain.{
  start, finished, acknowledged, started, finish, acknowledge, get_state, state_transitions,
  acknowledged_state, finished_state,
}
use vitess_operator.ShardDrain.{
  Env, Pod, Tablet, replica, is_candidate, best_of, candidates, candidate_primary, touch,
  reconcile_drain,
}
use vitess_operator.ShardDrain.Candidate.{
  IsFitOf, candidate_primary-IsFitOf, candidate_primary-none_iff,
}
use vitess_operator.ShardDrain.Primary.{IsSafePass, reconcile_drain-IsSafePass}
use vitess_operator.ShardDrain.Pass.{reconcile_drain-is_some}
use vitess_operator.DrainProtocol.{
  World, Reach, here, next, request, sync, begin_pass, write, change, set, drains_of,
}
use vitess_operator.DrainProtocol.Safety.{IsInitial, one_finished}

abbrev plain : ObjectMeta
plain = record {
  name = "tablet";
  namespace = "default";
  uid = 1;
  labels = [];
  annotations = [];
  deletion_timestamp = none;
}

abbrev calm_world : World
calm_world = record { cur = λ n. plain; view = λ n. plain; snap = λ n. plain; queue = [] }

abbrev acked : ObjectMeta
acked = acknowledge "now" (start plain "drain")

abbrev names : List String
names = "a" ∷ "b" ∷ []

calm_world-IsInitial : IsInitial names calm_world
unfolding acknowledged finished started lookup
calm_world-IsInitial = record {
  fresh = λ n. (refl, refl, λ e. cc);
  cached = refl;
  read = refl;
  no_changes = refl;
}

-- A drain of "a" runs to its end.
drained : Reach names calm_world (
    change "a"
      (finish "later" acked)
      (record (change "a" acked (record (change "a" (start plain "drain") calm_world) {
        view = set "a" (start plain "drain") (λ n. plain);
        snap = set "a" (start plain "drain") (λ n. plain);
        queue = [];
      })) {
        view = set "a" acked (set "a" (start plain "drain") (λ n. plain));
        snap = set "a" acked (set "a" (start plain "drain") (λ n. plain));
        queue = [];
      }))
unfolding state_transitions drains_of touch lookup insert sort_by start started acknowledge
    acknowledged finish finished get_state
drained =
    next
      (next
        (next
          (next
            (next
              (next (next here (request "a" "drain" (inl refl)))
                (sync "a" (start plain "drain") [] refl))
              begin_pass)
            (write "a" "now" acknowledged_state acked true refl refl refl))
          (sync "a" acked [] refl))
        begin_pass)
      (write "a" "later" finished_state (finish "later" acked) true refl refl refl)

is_finished : finished (finish "later" acked) ≡ true
unfolding finish finished acknowledge start lookup insert
is_finished = refl

one_finished_example : ◌≡◌ {A = String} "a" "a"
one_finished_example =
    one_finished names calm_world _ calm_world-IsInitial drained "a" "a" is_finished is_finished

abbrev pod_b : Pod
pod_b = record { meta = plain; alias = "b"; ready = true; containers = [] }

abbrev tablet_b : Tablet
tablet_b = record { alias = "b"; tablet_type = replica }

abbrev shard_env : Env ℕ String
shard_env = record {
  list_pods = ok (pod_b ∷ []);
  get_shard = ok (some "a");
  get_tablets = ok (("b", tablet_b) ∷ []);
  available = [];
  using_external = false;
  desired_image = "";
  now = "now";
  update = λ p. none;
  safe_upgrade = λ a b. ok false;
  execute_fetch = λ t. none;
  position_of = λ t. err "timeout";
  arrival = [];
  zero_position = 0;
  is_zero = λ p. true;
  at_least = λ p q. true;
  planned_reparent = λ t. none;
  externally_reparented = λ t. none;
  change_type_to_spare = λ a. none;
}

candidate_primary-IsFitOf_example :
    IsFitOf shard_env "a" (("b", pod_b) ∷ []) (("b", tablet_b) ∷ []) tablet_b
unfolding candidate_primary candidates is_candidate best_of lookup started acknowledged finished
candidate_primary-IsFitOf_example =
    candidate_primary-IsFitOf shard_env "a" (("b", pod_b) ∷ []) (("b", tablet_b) ∷ []) tablet_b refl

candidate_primary-none_iff_example :
    (candidate_primary shard_env "a" (("b", pod_b) ∷ []) (("b", tablet_b) ∷ []) ≡ none)
    ↔ ((t : Tablet) → IsFitOf shard_env "a" (("b", pod_b) ∷ []) (("b", tablet_b) ∷ []) t → ⊥)
candidate_primary-none_iff_example =
    candidate_primary-none_iff shard_env "a" (("b", pod_b) ∷ []) (("b", tablet_b) ∷ [])

-- The primary "a" has been acknowledged, and "b" asks for a drain.
abbrev busy_env : Env ℕ String
busy_env = record shard_env {
  list_pods = ok (
      record pod_b { alias = "a"; meta = acked }
      ∷ record pod_b { meta = start plain "drain" }
      ∷ []);
}

reconcile_drain-is_some_example : is_some (reconcile_drain busy_env) ≡ true
reconcile_drain-is_some_example = reconcile_drain-is_some busy_env

abbrev busy_pods : List Pod
busy_pods =
    record pod_b { alias = "a"; meta = acked } ∷ record pod_b { meta = start plain "drain" } ∷ []

reconcile_drain-IsSafePass_example : IsSafePass busy_env "a" (reconcile_drain busy_env)
unfolding start acknowledge finished lookup insert
reconcile_drain-IsSafePass_example =
    reconcile_drain-IsSafePass busy_env "a" busy_pods refl refl ((λ e. refl), ((λ e. refl), tt))
