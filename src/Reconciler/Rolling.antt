-- ===== src/Reconciler/Rolling.antt =====
-- How a pass rolls a change out: scheduled first, drained when released, and applied at the end.
use vitess_operator.Prelude.{◌≡◌, ◌⊎◌, string_eq, Bool, true, false, ◌&&◌, not, none, some, [], ◌∷◌}
use vitess_operator.Meta.{ObjectMeta}
use vitess_operator.Drain
use vitess_operator.Drain.Annotations as Asks
use vitess_operator.Rollout
use vitess_operator.Rollout.Annotations as Marks
use vitess_operator.Reconciler.{
  Object, Key, Api, Strategy, Call, did_update, did_delete, Outcome, deep_equal, hook, with_meta,
}

-- What is documented of the library calls: `SetControllerReference` writes the owner references,
-- and defaulting fills in fields of the spec, so the annotations stay.
pub record KeepsAnnotations {B E : Type 0} (api : Api B E) : Type 0 where
  pub controlled : (x : Object B) → (api.set_controller x).0.meta.annotations ≡ x.meta.annotations
  pub defaulted : (x : Object B) → (api.defaults x).meta.annotations ≡ x.meta.annotations

-- The call is an update, of an object of which `Q` holds.
abbrev pub IsUpdate : {B S : Type 0} → (Object B → Type 0) → Call B S → Type 0
IsUpdate Q (did_update new) = Q new
IsUpdate Q _ = ⊥

module _ {B S E : Type 0} (api : Api B E) (keeps : KeepsAnnotations api) (s : Strategy B S)
    (key : Key) (cur in_place : Object B) where
  -- The object with all rolling changes.
  abbrev pub pending : Object B
  pending = hook s.update_rolling_recreate key (hook s.update_rolling_in_place key in_place)

  -- The object with the rolling changes that need no new object.
  abbrev pub rolled : Object B
  rolled = hook s.update_rolling_in_place key in_place

  abbrev must_recreate : Bool
  must_recreate = elim s.update_rolling_recreate [
    | none ↦ false
    | some f ↦ not (deep_equal api rolled (f key rolled))
  ]

  -- Whether the object has a drain to wait for.
  abbrev awaits_drain : Bool
  awaits_drain = Drain.supported cur.meta && not (Drain.finished cur.meta)

  -- The object with these changes, but for its metadata, its controller and its defaults.
  abbrev pub IsRolled : Object B → Type 0
  IsRolled x =
      (m : ObjectMeta) × (r : Object B) × ((r ≡ rolled) ⊎ (r ≡ api.defaults rolled))
      × ((x ≡ (api.set_controller (with_meta r m)).0)
          ⊎ (x ≡ api.defaults (api.set_controller (with_meta r m)).0))

  -- An object of which `Q` holds is sent as the only call, unless it makes no difference, or cannot
  -- get its controller.
  pub data IsUpdatedTo (Q : Object B → Type 0) : Outcome B S E → Type 0 where
    sent : (x : Object B) → Q x → IsUpdatedTo Q (did_update x ∷ [], api.update x)
    unchanged : (x : Object B) → Q x → deep_equal api cur x ≡ true → IsUpdatedTo Q ([], none)
    uncontrolled :
        (x : Object B) (err : E)
        → (api.set_controller x).1 ≡ some err
        → IsUpdatedTo Q ([], some err)

  abbrev pub IsSettled : ObjectMeta → Type 0
  IsSettled m = (Rollout.scheduled m ≡ false) × (Rollout.released m ≡ false)

  abbrev pub IsAsked : ObjectMeta → Type 0
  IsAsked m = (Drain.started m ≡ true) × (Rollout.scheduled m ≡ true)

  -- What happens to a released object.
  abbrev pub IsRollout : Outcome B S E → Type 0
  IsRollout o =
      (must_recreate ≡ false) × IsUpdatedTo (λ x. IsRolled x × IsSettled x.meta) o
      ⊎ (must_recreate ≡ true)
        × (awaits_drain ≡ true)
        × IsUpdatedTo (λ x. IsRolled x × IsAsked x.meta) o
      ⊎ (must_recreate ≡ true)
        × (awaits_drain ≡ false)
        × (o ≡ (did_delete cur ∷ [], api.delete cur))
