-- ===== src/Drain.antt =====
-- pkg/operator/drain/drain.go: the annotations by which drains are agreed on, and the state machine
-- that decides which objects are acknowledged and which one is finished.
--
-- A method that mutates its object returns the new one. `time.Now().UTC().String()` is the argument
-- `now`. The map of states is a list of entries in the order in which `range` meets them.
pub mod Annotations
mod Scan
pub mod Transitions
use vitess_operator.Prelude.{
  String, Bool, true, false, ◌&&◌, Option, none, some, List, [], ◌∷◌, Map, lookup, insert, delete,
  keys, is_some, or_zero, if◌then◌else◌, str_lt, sort_by, string_eq,
}
use vitess_operator.Meta.{ObjectMeta}

abbrev pub supported_annotation : String
supported_annotation = "drain.planetscale.com/supported"

abbrev pub started_annotation : String
started_annotation = "drain.planetscale.com/started"

abbrev pub acknowledged_annotation : String
acknowledged_annotation = "drain.planetscale.com/acknowledged"

abbrev pub finished_annotation : String
finished_annotation = "drain.planetscale.com/finished"

unfoldable pub supported : ObjectMeta → Bool
supported obj = is_some (lookup supported_annotation obj.annotations)

unfoldable pub started : ObjectMeta → Bool
started obj = is_some (lookup started_annotation obj.annotations)

unfoldable pub acknowledged : ObjectMeta → Bool
acknowledged obj = is_some (lookup acknowledged_annotation obj.annotations)

unfoldable pub finished : ObjectMeta → Bool
finished obj = is_some (lookup finished_annotation obj.annotations)

unfoldable pub start : ObjectMeta → String → ObjectMeta
start obj message =
    if is_some (lookup started_annotation obj.annotations)
    then obj
    else record obj { annotations = insert started_annotation message obj.annotations }

unfoldable pub acknowledge : String → ObjectMeta → ObjectMeta
acknowledge now obj =
    if is_some (lookup acknowledged_annotation obj.annotations)
    then obj
    else record obj { annotations = insert acknowledged_annotation now obj.annotations }

unfoldable pub unacknowledge : ObjectMeta → ObjectMeta
unacknowledge obj = record obj { annotations = delete acknowledged_annotation obj.annotations }

unfoldable pub finish : String → ObjectMeta → ObjectMeta
finish now obj =
    if is_some (lookup finished_annotation obj.annotations)
    then obj
    else record obj { annotations = insert finished_annotation now obj.annotations }

unfoldable pub unfinish : ObjectMeta → ObjectMeta
unfinish obj = record obj { annotations = delete finished_annotation obj.annotations }

pub data State : Type 0 where
  not_draining draining acknowledged_state finished_state : State

unfoldable to_string : State → String
to_string not_draining = "NotDraining"
to_string draining = "Draining"
to_string acknowledged_state = "DrainingAcknowledged"
to_string finished_state = "DrainingFinished"

-- The initial scan: the loop body for one entry, on `transitions` and `canMarkFinished`.
abbrev scan_entry : String → State → Map String State → Bool → Map String State × Bool
scan_entry name not_draining transitions can = (transitions, can)
scan_entry name draining transitions can = (insert name acknowledged_state transitions, false)
scan_entry name acknowledged_state transitions can = (transitions, can)
scan_entry name finished_state transitions can = (transitions, false)

unfoldable pub scan : Map String State → Map String State → Bool → Map String State × Bool
scan [] transitions can = (transitions, can)
scan ((name, state) ∷ rest) transitions can =
    let (transitions', can') = scan_entry name state transitions can in scan rest transitions' can'

abbrev pub is_acknowledged : State → Bool
is_acknowledged acknowledged_state = true
is_acknowledged _ = false

-- The second loop, over the sorted names.
unfoldable pub mark_first : Map String State → List String → Map String State → Map String State
mark_first states [] transitions = transitions
mark_first states (name ∷ names) transitions =
    if is_acknowledged (or_zero not_draining (lookup name states))
    then insert name finished_state transitions
    else mark_first states names transitions

unfoldable pub state_transitions : Map String State → Map String State
unfolding scan mark_first
state_transitions states =
    let (transitions, can) = scan states [] true in
    if can then mark_first states (sort_by str_lt (keys states)) transitions else transitions

-- The state, and whether the error of impossible annotations comes with it.
unfoldable pub get_state : ObjectMeta → State × Bool
get_state obj =
    if finished obj && acknowledged obj
    then (finished_state, false)
    else if finished obj
    then (finished_state, true)
    else if acknowledged obj
    then (acknowledged_state, false)
    else if started obj
    then (draining, false)
    else (not_draining, false)
