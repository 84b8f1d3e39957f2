-- ===== src/Rollout.antt =====
-- pkg/operator/rollout/rollout.go: the annotations by which changes are scheduled, released and
-- handed down to an object's children. A method that mutates its object returns the new one.
pub mod Annotations
use vitess_operator.Prelude.{
  String, Bool, lookup, insert, delete, is_some, if◌then◌else◌, string_eq,
}
use vitess_operator.Meta.{ObjectMeta}

abbrev pub scheduled_annotation : String
scheduled_annotation = "rollout.planetscale.com/scheduled"

abbrev pub released_annotation : String
released_annotation = "rollout.planetscale.com/released"

abbrev pub cascade_annotation : String
cascade_annotation = "rollout.planetscale.com/cascade"

unfoldable pub scheduled : ObjectMeta → Bool
scheduled obj = is_some (lookup scheduled_annotation obj.annotations)

unfoldable pub released : ObjectMeta → Bool
released obj = is_some (lookup released_annotation obj.annotations)

unfoldable pub cascading : ObjectMeta → Bool
cascading obj = is_some (lookup cascade_annotation obj.annotations)

unfoldable pub schedule : ObjectMeta → String → ObjectMeta
schedule obj message = record obj {
  annotations = insert scheduled_annotation message obj.annotations;
}

unfoldable pub unschedule : ObjectMeta → ObjectMeta
unschedule obj = record obj {
  annotations = delete released_annotation (delete scheduled_annotation obj.annotations);
}

unfoldable pub release : ObjectMeta → ObjectMeta
release obj =
    if is_some (lookup released_annotation obj.annotations)
    then obj
    else record obj { annotations = insert released_annotation "" obj.annotations }

unfoldable pub unrelease : ObjectMeta → ObjectMeta
unrelease obj = record obj { annotations = delete released_annotation obj.annotations }

unfoldable pub cascade : ObjectMeta → ObjectMeta
cascade obj =
    if is_some (lookup cascade_annotation obj.annotations)
    then obj
    else record obj { annotations = insert cascade_annotation "" obj.annotations }

unfoldable pub uncascade : ObjectMeta → ObjectMeta
uncascade obj = record obj { annotations = delete cascade_annotation obj.annotations }
