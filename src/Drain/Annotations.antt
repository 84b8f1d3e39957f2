-- ===== src/Drain/Annotations.antt =====
-- What each annotation write leaves for every read: its own annotation, and no other.
use vitess_operator.Prelude.{
  ◌≡◌, String, Bool, true, false, arith, lookup-insert, lookup-delete, string_eq,
}
use vitess_operator.Meta.{ObjectMeta}
use vitess_operator.Drain.{
  supported, started, acknowledged, finished, start, acknowledge, unacknowledge, finish, unfinish,
  supported_annotation, started_annotation, acknowledged_annotation, finished_annotation,
}

-- The four reads of an object.
pub record Reads : Type 0 where
  pub is_supported : Bool
  pub is_started : Bool
  pub is_acknowledged : Bool
  pub is_finished : Bool

unfoldable pub reads : ObjectMeta → Reads
reads obj = record {
  is_supported = supported obj;
  is_started = started obj;
  is_acknowledged = acknowledged obj;
  is_finished = finished obj;
}

module _ (obj : ObjectMeta) where
  pub reads-start :
      (message : String) → reads (start obj message) ≡ record (reads obj) { is_started = true }
  unfolding reads supported started acknowledged finished start
  reads-start message = ground (
    arith,
    lookup-insert started_annotation started_annotation message obj.annotations,
    lookup-insert supported_annotation started_annotation message obj.annotations,
    lookup-insert acknowledged_annotation started_annotation message obj.annotations,
    lookup-insert finished_annotation started_annotation message obj.annotations,
  )

  pub reads-acknowledge :
      (now : String) → reads (acknowledge now obj) ≡ record (reads obj) { is_acknowledged = true }
  unfolding reads supported started acknowledged finished acknowledge
  reads-acknowledge now = ground (
    arith,
    lookup-insert started_annotation acknowledged_annotation now obj.annotations,
    lookup-insert supported_annotation acknowledged_annotation now obj.annotations,
    lookup-insert acknowledged_annotation acknowledged_annotation now obj.annotations,
    lookup-insert finished_annotation acknowledged_annotation now obj.annotations,
  )

  pub reads-finish :
      (now : String) → reads (finish now obj) ≡ record (reads obj) { is_finished = true }
  unfolding reads supported started acknowledged finished finish
  reads-finish now = ground (
    arith,
    lookup-insert started_annotation finished_annotation now obj.annotations,
    lookup-insert supported_annotation finished_annotation now obj.annotations,
    lookup-insert acknowledged_annotation finished_annotation now obj.annotations,
    lookup-insert finished_annotation finished_annotation now obj.annotations,
  )

  pub reads-unacknowledge :
      reads (unacknowledge obj) ≡ record (reads obj) { is_acknowledged = false }
  unfolding reads supported started acknowledged finished unacknowledge
  reads-unacknowledge = ground (
    arith,
    lookup-delete started_annotation acknowledged_annotation obj.annotations,
    lookup-delete supported_annotation acknowledged_annotation obj.annotations,
    lookup-delete acknowledged_annotation acknowledged_annotation obj.annotations,
    lookup-delete finished_annotation acknowledged_annotation obj.annotations,
  )

  pub reads-unfinish : reads (unfinish obj) ≡ record (reads obj) { is_finished = false }
  unfolding reads supported started acknowledged finished unfinish
  reads-unfinish = ground (
    arith,
    lookup-delete started_annotation finished_annotation obj.annotations,
    lookup-delete supported_annotation finished_annotation obj.annotations,
    lookup-delete acknowledged_annotation finished_annotation obj.annotations,
    lookup-delete finished_annotation finished_annotation obj.annotations,
  )
