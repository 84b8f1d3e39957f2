-- ===== src/Examples/Objects.antt =====
-- pkg/operator/reconciler at concrete inputs: a Pod that stands, and a change that wants a new one.
use vitess_operator.Prelude.{
  ◌≡◌, ok, ◌++◌, Bool, List, Option, ℕ, String, [], ◌∷◌, none, some, true, false, nat_beq,
  string_eq,
}
use vitess_operator.Meta.{ObjectMeta}
use vitess_operator.Rollout
use vitess_operator.Reconciler.{Object, Key, found, Api, Strategy, Call, reconcile_object}
use vitess_operator.ObjectSet.{reconcile_object_set}
use vitess_operator.ObjectSet.Order.{run, reconcile_object_set-run}

abbrev pod_key : Key
pod_key = record { namespace = "default"; name = "tablet" }

abbrev pod_meta : ObjectMeta
pod_meta = record {
  name = "tablet";
  namespace = "default";
  uid = 1;
  labels = ("app", "vitess") ∷ [];
  annotations = (Rollout.scheduled_annotation, "image") ∷ (Rollout.released_annotation, "") ∷ [];
  deletion_timestamp = none;
}

-- The body is the version of the spec.
abbrev current : Object ℕ
current = record {
  meta = pod_meta;
  pod = some (record { restart_policy = "Always"; phase = "Running" });
  body = 1;
}

abbrev api : Api ℕ String
api = record {
  gvk = none;
  owner_gvk = none;
  get = λ k. found current;
  create = λ x. none;
  update = λ x. none;
  delete = λ x. none;
  set_controller = λ x. (x, none);
  defaults = λ x. x;
  equal = λ x y. nat_beq x.body y.body;
  describe_diff = λ x y. "body";
  name_collision = "collision";
}

abbrev strategy : Strategy ℕ Unit
strategy = record {
  make = λ k. current;
  update_in_place = none;
  update_rolling_in_place = none;
  update_recreate = none;
  update_rolling_recreate = some (λ k x. record x { body = 2 });
  status = false;
  orphan_status = false;
  prepare_for_turndown = none;
}

-- The world of a set is the list of the calls that were made.
abbrev reconcile : Key → Bool → List (Call ℕ Unit) → List (Call ℕ Unit) × Option String
reconcile key wanted log =
    let (calls, e) = reconcile_object api strategy key (("app", "vitess") ∷ []) wanted in
    (log ++ calls, e)

abbrev other_key : Key
other_key = record { namespace = "default"; name = "leftover" }

reconcile_object_set-run_example :
    reconcile_object_set reconcile (ok (pod_key ∷ other_key ∷ [])) (pod_key ∷ []) []
    ≡ run reconcile ((pod_key, true) ∷ (other_key, false) ∷ []) []
reconcile_object_set-run_example =
    reconcile_object_set-run reconcile (pod_key ∷ other_key ∷ []) (pod_key ∷ []) []
