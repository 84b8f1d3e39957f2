-- ===== src/Rollout/Annotations.antt =====
-- What each rollout write leaves for every rollout read.
use vitess_operator.Prelude.{
  ◌≡◌, String, Bool, true, false, arith, lookup-insert, lookup-delete, delete, string_eq,
}
use vitess_operator.Meta.{ObjectMeta}
use vitess_operator.Rollout.{
  scheduled, released, cascading, schedule, unschedule, release, unrelease, cascade, uncascade,
  scheduled_annotation, released_annotation, cascade_annotation,
}

-- The three reads of an object.
pub record Reads : Type 0 where
  pub is_scheduled : Bool
  pub is_released : Bool
  pub is_cascading : Bool

unfoldable pub reads : ObjectMeta → Reads
unfolding scheduled released cascading
reads obj = record {
  is_scheduled = scheduled obj;
  is_released = released obj;
  is_cascading = cascading obj;
}

module _ (obj : ObjectMeta) where
  pub reads-schedule :
      (message : String) → reads (schedule obj message) ≡ record (reads obj) { is_scheduled = true }
  unfolding reads schedule
  reads-schedule message = ground (
    arith,
    lookup-insert scheduled_annotation scheduled_annotation message obj.annotations,
    lookup-insert released_annotation scheduled_annotation message obj.annotations,
    lookup-insert cascade_annotation scheduled_annotation message obj.annotations,
  )

  pub reads-unschedule :
      reads (unschedule obj) ≡ record (reads obj) { is_scheduled = false; is_released = false }
  unfolding reads unschedule
  reads-unschedule =
      let rest = delete scheduled_annotation obj.annotations in
      ground (
        arith,
        lookup-delete scheduled_annotation released_annotation rest,
        lookup-delete released_annotation released_annotation rest,
        lookup-delete cascade_annotation released_annotation rest,
        lookup-delete scheduled_annotation scheduled_annotation obj.annotations,
        lookup-delete released_annotation scheduled_annotation obj.annotations,
        lookup-delete cascade_annotation scheduled_annotation obj.annotations,
      )

  reads-release : reads (release obj) ≡ record (reads obj) { is_released = true }
  unfolding reads release
  reads-release = ground (
    arith,
    lookup-insert scheduled_annotation released_annotation "" obj.annotations,
    lookup-insert released_annotation released_annotation "" obj.annotations,
    lookup-insert cascade_annotation released_annotation "" obj.annotations,
  )

  reads-cascade : reads (cascade obj) ≡ record (reads obj) { is_cascading = true }
  unfolding reads cascade
  reads-cascade = ground (
    arith,
    lookup-insert scheduled_annotation cascade_annotation "" obj.annotations,
    lookup-insert released_annotation cascade_annotation "" obj.annotations,
    lookup-insert cascade_annotation cascade_annotation "" obj.annotations,
  )

  reads-uncascade : reads (uncascade obj) ≡ record (reads obj) { is_cascading = false }
  unfolding reads uncascade
  reads-uncascade = ground (
    arith,
    lookup-delete scheduled_annotation cascade_annotation obj.annotations,
    lookup-delete released_annotation cascade_annotation obj.annotations,
    lookup-delete cascade_annotation cascade_annotation obj.annotations,
  )

  reads-unrelease : reads (unrelease obj) ≡ record (reads obj) { is_released = false }
  unfolding reads unrelease
  reads-unrelease = ground (
    arith,
    lookup-delete scheduled_annotation released_annotation obj.annotations,
    lookup-delete released_annotation released_annotation obj.annotations,
    lookup-delete cascade_annotation released_annotation obj.annotations,
  )
