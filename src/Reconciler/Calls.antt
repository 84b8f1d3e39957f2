-- ===== src/Reconciler/Calls.antt =====
-- Which calls each part of a pass can make. Every lemma takes a predicate on calls, and asks for it
-- at the calls that the part may make, with what the code has tested before it makes them.
use vitess_operator.Prelude.{
  ◌≡◌, ◌⊎◌, inl, inr, true, false, ◌&&◌, not, some, All, arith, Bool-cases, Option-cases,
}
use vitess_operator.Drain.{supported, finished}
use vitess_operator.Rollout.{released}
use vitess_operator.Reconciler.{
  Object, Key, Api, Strategy, Call, did_update, did_delete, deep_equal, hook, update_in_place,
  drain_and_delete, roll_out, schedule_pending, apply_updates, roll_or_schedule,
}

-- The object's controller has drained it, or does not drain such objects.
abbrev IsDrained : {B : Type 0} → Object B → Type 0
IsDrained cur = (supported cur.meta && not (finished cur.meta)) ≡ false

module _ {B S E : Type 0} (api : Api B E) (s : Strategy B S) (key : Key) where
  -- A change that is to be made at once, and that wants a new object.
  abbrev RecreatesAtOnce : Object B → Type 0
  RecreatesAtOnce cur =
      let in_place = hook s.update_in_place key cur in
      (f : Key → Object B → Object B) × (s.update_recreate ≡ some f)
      × (deep_equal api in_place (f key in_place) ≡ false)

  -- Why an object that is wanted is deleted: such a change, or one that is rolled out, on an
  -- object that is released and drained.
  abbrev pub Recreates : Object B → Type 0
  Recreates cur = RecreatesAtOnce cur ⊎ (released cur.meta ≡ true) × IsDrained cur

module _ {B S E : Type 0} (api : Api B E) (s : Strategy B S) (key : Key) (P : Call B S → Type 0)
    (cur : Object B) (updates : (new : Object B) → P (did_update new)) where
  pub update_in_place-All : (new : Object B) → All P (update_in_place api cur new).0
  unfolding update_in_place
  update_in_place-All new = ground (arith, updates (api.defaults (api.set_controller new).0))

  drain_and_delete-All :
      (in_place recreated : Object B)
      → (IsDrained cur → P (did_delete cur))
      → All P (drain_and_delete api cur in_place recreated).0
  unfolding drain_and_delete
  drain_and_delete-All in_place recreated deletes =
      elim (Bool-cases (supported cur.meta && not (finished cur.meta))) [
        | inl e ↦ rw e (update_in_place-All _)
        | inr e ↦ rw e (deletes e, tt)
      ]

  roll_out-All :
      (in_place : Object B)
      → (IsDrained cur → P (did_delete cur))
      → All P (roll_out api s key cur in_place).0
  unfolding roll_out
  roll_out-All in_place deletes = elim (Option-cases s.update_rolling_recreate) [
    | inl e ↦ rw e (update_in_place-All _)
    | inr (f, e) ↦
        let rolled = hook s.update_rolling_in_place key in_place in
        elim (Bool-cases (deep_equal api rolled (f key rolled))) [
          | inl same ↦ rw (e, same) (update_in_place-All _)
          | inr other ↦ rw (e, other) (drain_and_delete-All _ _ deletes)
        ]
  ]

  schedule_pending-All : (in_place : Object B) → All P (schedule_pending api s key cur in_place).0
  unfolding schedule_pending
  schedule_pending-All in_place =
      let pending =
        hook s.update_rolling_recreate key (hook s.update_rolling_in_place key in_place) in
      elim (Bool-cases (deep_equal api in_place pending)) [
        | inl e ↦ rw e (update_in_place-All _)
        | inr e ↦ rw e (update_in_place-All _)
      ]

  roll_or_schedule-All :
      (in_place : Object B)
      → ((released cur.meta ≡ true) × IsDrained cur → P (did_delete cur))
      → All P (roll_or_schedule api s key cur in_place).0
  roll_or_schedule-All in_place deletes = elim (Bool-cases (released cur.meta)) [
    | inl e ↦ rw e (roll_out-All in_place (λ d. deletes (e, d)))
    | inr e ↦ rw e (schedule_pending-All in_place)
  ]

  pub apply_updates-All :
      (Recreates api s key cur → P (did_delete cur)) → All P (apply_updates api s key cur).0
  unfolding apply_updates
  apply_updates-All deletes = elim (Option-cases s.update_recreate) [
    | inl e ↦ rw e (roll_or_schedule-All _ (λ r. deletes (inr r)))
    | inr (f, e) ↦
        let in_place = hook s.update_in_place key cur in
        elim (Bool-cases (deep_equal api in_place (f key in_place))) [
          | inl same ↦ rw (e, same) (roll_or_schedule-All _ (λ r. deletes (inr r)))
          | inr other ↦ rw (e, other) (deletes (inl (f, e, other)), tt)
        ]
  ]
