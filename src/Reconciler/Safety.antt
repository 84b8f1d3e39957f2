-- ===== src/Reconciler/Safety.antt =====
-- What a pass of `ReconcileObject` may do to the object that it is about.
use vitess_operator.Prelude.{◌≡◌, ◌⊎◌, Bool, true, false, Option, none, some, Map, String, is_some}
use vitess_operator.Meta.{ObjectMeta}
use vitess_operator.Reconciler.{
  Object, Key, found, not_found, Api, Strategy, Call, did_create, did_update, did_delete,
  did_status, did_orphan, evicted, has_matching_labels, with_meta,
}
use vitess_operator.Reconciler.Calls.{Recreates}

module _ {B S E : Type 0} (api : Api B E) (s : Strategy B S) (key : Key)
    (labels : Map String String) where
  -- The object carries our labels, and is not on its way down.
  abbrev IsOurs : Object B → Type 0
  IsOurs cur =
      (has_matching_labels cur.meta labels ≡ true) × (is_some cur.meta.deletion_timestamp ≡ false)

  -- No hook asks to keep the object that is not wanted.
  abbrev MayTurnDown : Object B → Type 0
  MayTurnDown cur =
      (prepare : Key → Object B → Object B × Option S)
      → s.prepare_for_turndown ≡ some prepare
      → (prepare key cur).1 ≡ none

  -- The object that the strategy makes, under the key's name, with its controller.
  abbrev pub IsMade : Object B → Type 0
  IsMade new =
      (m : ObjectMeta) × (m.namespace ≡ key.namespace)
      × (m.name ≡ key.name)
      × (new ≡ (api.set_controller (with_meta (s.make key) m)).0)

  -- What was found, when a call is made.
  abbrev pub IsJustified : Bool → Call B S → Type 0
  IsJustified wanted (did_create new) =
      (wanted ≡ true)
      × ((api.get key ≡ not_found)
          ⊎ ((cur : Object B) × (api.get key ≡ found cur) × (evicted cur.pod ≡ true)))
      × IsMade new
  IsJustified wanted (did_update new) =
      (cur : Object B) × (api.get key ≡ found cur) × (evicted cur.pod ≡ false) × IsOurs cur
  IsJustified wanted (did_delete cur) =
      (api.get key ≡ found cur)
      × ((evicted cur.pod ≡ true)
          ⊎ IsOurs cur
            × ((wanted ≡ false) × MayTurnDown cur ⊎ (wanted ≡ true) × Recreates api s key cur))
  IsJustified wanted (did_status cur) =
      (api.get key ≡ found cur) × (wanted ≡ true) × (has_matching_labels cur.meta labels ≡ true)
  IsJustified wanted (did_orphan cur status) =
      (api.get key ≡ found cur) × (wanted ≡ false) × IsOurs cur
