-- ===== src/Results.antt =====
-- pkg/operator/results/results.go: the builder that adds up the results of a reconcile pass.
--
-- A method that mutates the builder returns the new one; what it also returns is `result` of that.
-- A delay is a number of nanoseconds. Go's is signed, and the backup schedule controller passes a
-- negative one when the next run is already past: 0 stands for it, as `Merge`, through which its
-- results go on, takes neither of them over.
pub mod Totals
use vitess_operator.Prelude.{
  ℕ, Bool, true, false, ◌&&◌, Option, none, some, ltb, if◌then◌else◌, List, [], ◌∷◌,
}

-- controller-runtime's `reconcile.Result`.
pub record Result : Type 0 where
  pub requeue : Bool
  pub requeue_after : ℕ

pub record Builder (E : Type 0) : Type 0 where
  pub total : Result
  pub first_err : Option E

module _ {E : Type 0} where
  abbrev pub new : Builder E
  new = record { total = record { requeue = false; requeue_after = 0 }; first_err = none }

  abbrev or_else : Option E → E → Option E
  or_else none e = some e
  or_else (some e) _ = some e

  unfoldable pub error : E → Builder E → Builder E
  error err a = record a { first_err = or_else a.first_err err }

  unfoldable pub requeue : Builder E → Builder E
  requeue a = record a { total = record { requeue = true; requeue_after = 0 } }

  unfoldable pub requeue_after : ℕ → Builder E → Builder E
  requeue_after delay a =
      if a.total.requeue
      then a
      else if ltb 0 a.total.requeue_after && ltb a.total.requeue_after delay
      then a
      else record a { total = record a.total { requeue_after = delay } }

  abbrev merge_error : Option E → Builder E → Builder E
  merge_error none a = a
  merge_error (some err) a = error err a

  unfoldable pub merge : Result → Option E → Builder E → Builder E
  unfolding error requeue requeue_after
  merge other other_err a =
      let b = merge_error other_err a in
      let c = if other.requeue then requeue b else b in
      if ltb 0 other.requeue_after then requeue_after other.requeue_after c else c

  unfoldable pub result : Builder E → Result × Option E
  result a = (a.total, a.first_err)
