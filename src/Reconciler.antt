-- ===== src/Reconciler.antt =====
-- pkg/operator/reconciler/object.go: one reconcile pass over one object.
--
-- What the pass does to the world is the list of its calls, in order, beside the error that it
-- returns. The Kubernetes client, the scheme and the object comparison are the record `Api`: the
-- answer of each call, `SetControllerReference`, `scheme.Default`, `Semantic.DeepEqual` and
-- `describeDiff`. Event records, metrics and logs change nothing that the pass reads, and
-- `meta.Accessor` does not fail on a `client.Object`: they are left out.
mod Calls
pub mod Safety
pub mod Rolling
use vitess_operator.Prelude.{
  ℕ, String, Bool, true, false, ◌&&◌, ◌||◌, not, Option, none, some, List, [], ◌∷◌, ◌++◌, Map,
  lookup, is_some, or_zero, if◌then◌else◌, string_eq, ◌==◌,
}
use vitess_operator.Meta.{ObjectMeta}
use vitess_operator.Drain.{supported, finished, start}
use vitess_operator.Rollout.{released, schedule, unschedule}

-- The fields of a Pod that the pass reads.
pub record PodInfo : Type 0 where
  pub restart_policy : String
  pub phase : String

-- A `client.Object`: its metadata, the Pod fields if it is a Pod, and the rest.
pub record Object (B : Type 0) : Type 0 where
  pub meta : ObjectMeta
  pub pod : Option PodInfo
  pub body : B

-- `client.ObjectKey`.
pub record Key : Type 0 where
  pub namespace : String
  pub name : String

-- The answer of `client.Get`.
pub data Found (B E : Type 0) : Type 0 where
  found : Object B → Found B E
  not_found : Found B E
  get_failed : E → Found B E

pub record Api (B E : Type 0) : Type 0 where
  -- The errors of `GVKForObject` for the kind and for the owner.
  pub gvk : Option E
  pub owner_gvk : Option E
  pub get : Key → Found B E
  pub create : Object B → Option E
  pub update : Object B → Option E
  pub delete : Object B → Option E
  pub set_controller : Object B → Object B × Option E
  pub defaults : Object B → Object B
  pub equal : Object B → Object B → Bool
  pub describe_diff : Object B → Object B → String
  -- The error for an object that stands under our name with other labels.
  pub name_collision : E

-- A nil hook is `none`. `S` is the type of orphan statuses.
pub record Strategy (B S : Type 0) : Type 0 where
  pub make : Key → Object B
  pub update_in_place : Option (Key → Object B → Object B)
  pub update_rolling_in_place : Option (Key → Object B → Object B)
  pub update_recreate : Option (Key → Object B → Object B)
  pub update_rolling_recreate : Option (Key → Object B → Object B)
  -- Whether the strategy has the hooks `Status` and `OrphanStatus`.
  pub status : Bool
  pub orphan_status : Bool
  pub prepare_for_turndown : Option (Key → Object B → Object B × Option S)

pub data Call (B S : Type 0) : Type 0 where
  did_create : Object B → Call B S
  did_update : Object B → Call B S
  did_delete : Object B → Call B S
  did_status : Object B → Call B S
  did_orphan : Object B → S → Call B S

-- The calls of a pass, and its error.
abbrev pub Outcome : Type 0 → Type 0 → Type 0 → Type 0
Outcome B S E = List (Call B S) × Option E

abbrev pub with_meta : {B : Type 0} → Object B → ObjectMeta → Object B
with_meta obj m = record obj { meta = m }

abbrev restart_always : String
restart_always = "Always"

abbrev restart_on_failure : String
restart_on_failure = "OnFailure"

abbrev phase_failed : String
phase_failed = "Failed"

-- A Pod that its Node evicted.
unfoldable pub evicted : Option PodInfo → Bool
evicted none = false
evicted (some p) =
    (p.restart_policy == restart_always || p.restart_policy == restart_on_failure)
    && (p.phase == phase_failed)

unfoldable pub has_matching_labels : ObjectMeta → Map String String → Bool
has_matching_labels obj [] = true
has_matching_labels obj ((k, v) ∷ expected) =
    (or_zero "" (lookup k obj.labels) == v) && has_matching_labels obj expected

-- The comparison fills in the defaults of both objects, and they keep them.
abbrev pub deep_equal : {B E : Type 0} → Api B E → Object B → Object B → Bool
deep_equal api a b = api.equal (api.defaults a) (api.defaults b)

-- A hook on the object, or nothing.
abbrev pub hook : {B : Type 0} → Option (Key → Object B → Object B) → Key → Object B → Object B
hook none key obj = obj
hook (some f) key obj = f key obj

module _ {B S E : Type 0} (api : Api B E) where
  -- One call more in front.
  abbrev pub after : Call B S → Outcome B S E → Outcome B S E
  after call (calls, err) = (call ∷ calls, err)

  -- `Reconciler.delete`. `GVKForObject` was asked before, so it answers.
  unfoldable pub delete_object : Object B → Outcome B S E
  delete_object cur = (did_delete cur ∷ [], api.delete cur)

  abbrev pub update_controlled : Object B → Object B × Option E → Outcome B S E
  update_controlled cur (new, some err) = ([], some err)
  update_controlled cur (new, none) =
      if deep_equal api cur new
      then ([], none)
      else (did_update (api.defaults new) ∷ [], api.update (api.defaults new))

  unfoldable pub update_in_place : Object B → Object B → Outcome B S E
  update_in_place cur new = update_controlled cur (api.set_controller new)

  unfoldable pub drain_and_delete : Object B → Object B → Object B → Outcome B S E
  unfolding delete_object update_in_place
  drain_and_delete cur in_place recreated =
      if supported cur.meta && not (finished cur.meta)
      then (let message =
            api.describe_diff (with_meta in_place (start in_place.meta "rolling update"))
              recreated in
          update_in_place cur
            (with_meta in_place (schedule (start in_place.meta "rolling update") message)))
      else delete_object cur

module _ {B S E : Type 0} (api : Api B E) (s : Strategy B S) (key : Key) where
  abbrev create_controlled : Object B × Option E → Outcome B S E
  create_controlled (new, some err) = ([], some err)
  create_controlled (new, none) = (did_create new ∷ [], api.create new)

  -- The object is wanted, and there is none.
  unfoldable create_missing : Outcome B S E
  create_missing =
      let new = s.make key in
      create_controlled (
        api.set_controller
          (with_meta new (record (new.meta) { namespace = key.namespace; name = key.name })))

  -- The object is released: the rolling updates are applied too.
  unfoldable pub roll_out : Object B → Object B → Outcome B S E
  unfolding update_in_place drain_and_delete
  roll_out cur in_place =
      let rolled = hook s.update_rolling_in_place key in_place in
      elim s.update_rolling_recreate [
        | none ↦ update_in_place api cur (with_meta rolled (unschedule rolled.meta))
        | some f ↦
            let recreated = f key rolled in
            let rolled' = api.defaults rolled in
            if deep_equal api rolled recreated
            then update_in_place api cur (with_meta rolled' (unschedule rolled'.meta))
            else drain_and_delete api cur rolled' (api.defaults recreated)
      ]

  -- The object is not released: what is left to roll out is scheduled.
  unfoldable pub schedule_pending : Object B → Object B → Outcome B S E
  unfolding update_in_place
  schedule_pending cur in_place =
      let pending =
        hook s.update_rolling_recreate key (hook s.update_rolling_in_place key in_place) in
      let in_place' = api.defaults in_place in
      let message = api.describe_diff in_place' (api.defaults pending) in
      if deep_equal api in_place pending
      then update_in_place api cur (with_meta in_place' (unschedule in_place'.meta))
      else update_in_place api cur (with_meta in_place' (schedule in_place'.meta message))

  abbrev pub roll_or_schedule : Object B → Object B → Outcome B S E
  roll_or_schedule cur in_place =
      if released cur.meta then roll_out cur in_place else schedule_pending cur in_place

  -- The updates of an object that is wanted, exists, is ours and is not on its way down.
  unfoldable pub apply_updates : Object B → Outcome B S E
  unfolding roll_out schedule_pending delete_object
  apply_updates cur =
      let in_place = hook s.update_in_place key cur in
      elim s.update_recreate [
        | none ↦ roll_or_schedule cur in_place
        | some f ↦
            if deep_equal api in_place (f key in_place)
            then roll_or_schedule cur (api.defaults in_place)
            else delete_object api cur
      ]

  unfoldable pub reconcile_wanted : Map String String → Option (Object B) → Outcome B S E
  unfolding create_missing apply_updates has_matching_labels
  reconcile_wanted labels none = create_missing
  reconcile_wanted labels (some cur) =
      let updates = if is_some cur.meta.deletion_timestamp then ([], none) else apply_updates cur in
      if not (has_matching_labels cur.meta labels)
      then ([], some api.name_collision)
      else if s.status
      then after api (did_status cur) updates
      else updates

  abbrev pub turn_down : Object B → Object B × Option S → Outcome B S E
  turn_down cur (new, none) = delete_object api cur
  turn_down cur (new, some status) =
      let updated = update_in_place api cur new in
      if s.orphan_status then after api (did_orphan cur status) updated else updated

  unfoldable pub reconcile_unwanted : Map String String → Option (Object B) → Outcome B S E
  unfolding delete_object update_in_place has_matching_labels
  reconcile_unwanted labels none = ([], none)
  reconcile_unwanted labels (some cur) =
      if is_some cur.meta.deletion_timestamp
      then ([], none)
      else if not (has_matching_labels cur.meta labels)
      then ([], none)
      else elim s.prepare_for_turndown [
        | none ↦ delete_object api cur
        | some prepare ↦ turn_down cur (prepare key cur)
      ]

  abbrev pub reconcile_current : Map String String → Bool → Option (Object B) → Outcome B S E
  reconcile_current labels wanted cur =
      if wanted then reconcile_wanted labels cur else reconcile_unwanted labels cur

  -- An evicted Pod is deleted first, and then taken for absent.
  abbrev clear_evicted : Map String String → Bool → Object B → Option E → Outcome B S E
  clear_evicted labels wanted cur (some err) = (did_delete cur ∷ [], some err)
  clear_evicted labels wanted cur none =
      after api (did_delete cur) (reconcile_current labels wanted none)

  abbrev pub reconcile_found : Map String String → Bool → Found B E → Outcome B S E
  reconcile_found labels wanted (get_failed err) = ([], some err)
  reconcile_found labels wanted not_found = reconcile_current labels wanted none
  reconcile_found labels wanted (found cur) =
      if evicted cur.pod
      then clear_evicted labels wanted cur (api.delete cur)
      else reconcile_current labels wanted (some cur)

  unfoldable pub reconcile_object : Map String String → Bool → Outcome B S E
  unfolding reconcile_wanted reconcile_unwanted evicted
  reconcile_object labels wanted = elim api.gvk [
    | some err ↦ ([], some err)
    | none ↦ elim api.owner_gvk [
      | some err ↦ ([], some err)
      | none ↦ reconcile_found labels wanted (api.get key)
    ]
  ]
