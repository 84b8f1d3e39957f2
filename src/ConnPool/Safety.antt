-- ===== src/ConnPool/Safety.antt =====
-- The pool after any steps of its users.
use vitess_operator.Prelude.{
  ◌≡◌, refl, subst, ℕ, ◌+◌, ◌≤◌, ◌<◌, false, ◌∷◌, ◌++◌, Comparable, arith, nat_eq,
}
use vitess_operator.ConnPool.{failed}
use vitess_operator.ConnPool.Counting.{count, count_value}
use vitess_operator.ConnPool.Steps.{
  World, Step, find, start_waiting, opened, gave_up, closed, dialled, check_begun, check_passed,
  check_failed, collected, Reach, here, next, empty_world,
}
use vitess_operator.ConnPool.Invariant.{
  uses, IsSound, Inv, start_waiting-Inv, opened-Inv, gave_up-Inv, closed-Inv,
}
use vitess_operator.ConnPool.Alive.{begin_check-result, Step-IsAlive, IsAlive}
use vitess_operator.ConnPool.Preserved.{
  dialled-Inv, check_ended-Inv, check_begun-Inv, drop_conn-Inv, find-Inv, collected-Inv,
}

module _ {K : Type 0} ⦃cmp : Comparable K⦄ where
  start-Inv : Inv (empty_world {K = K})
  start-Inv = (
    tt,
    λ i. record {
      refs = refl;
      once = omega arith;
      unused = λ l. refl;
      unborn = λ l. (refl, refl);
      pooled = λ l. absurd (omega arith);
    },
  )

  Step-Inv : (w v : World K) → Inv w → Step w v → Inv v
  Step-Inv w v inv (find params now) = find-Inv w inv params now
  Step-Inv w v inv (start_waiting i now h) = start_waiting-Inv w inv i now h
  Step-Inv w v inv (opened i h e) = opened-Inv w inv i h
  Step-Inv w v inv (gave_up i h) = gave_up-Inv w inv i h
  Step-Inv w v inv (closed i h) = closed-Inv w inv i h
  Step-Inv w v inv (dialled i a l e) = dialled-Inv w inv i a l e
  Step-Inv w v inv (check_begun params now i p e) =
      let r = begin_check-result w params now i p e in
      subst (λ q. Inv (record w { pool = q; checking = (params, i) ∷ w.checking })) r.1
        (check_begun-Inv w inv params now i r.0)
  Step-Inv w v inv (check_passed params i xs ys e) = check_ended-Inv w inv params i xs ys e
  Step-Inv w v inv (check_failed params i xs ys e) =
      drop_conn-Inv (record w { checking = xs ++ ys }) (check_ended-Inv w inv params i xs ys e)
        params i
  Step-Inv w v inv (collected now p a b c e) = collected-Inv w inv now p a b c e

  pub Reach-Inv : (w : World K) → Reach empty_world w → Inv w
  Reach-Inv w here = start-Inv
  Reach-Inv w (next {u} r s) = Step-Inv u w (Reach-Inv u r) s

  pub Reach-IsAlive : (w : World K) → Reach empty_world w → IsAlive w
  Reach-IsAlive w here = λ i l. absurd (omega arith)
  Reach-IsAlive w (next {u} r s) =
      Step-IsAlive u w (λ i l. let sound : IsSound u i = (Reach-Inv u r).1 i in (sound.unborn l).0)
        (Reach-IsAlive u r) s

  -- After any steps of callers, checks, connection attempts and collections, the reference count of
  -- each connection is the number of the references that callers hold or wait with.
  pub ref_count_exact :
      (w : World K)
      → Reach empty_world w
      → (i : ℕ) → (w.pool.heap i).ref_count ≡ count i w.held + count i w.waiting
  ref_count_exact w r i = let s : IsSound w i = (Reach-Inv w r).1 i in s.refs

  -- After any steps, no connection was closed twice, and a connection that a caller holds or is
  -- opening, or that is being checked, was not closed.
  pub closed_once :
      (w : World K)
      → Reach empty_world w
      → (i : ℕ)
      → ((w.pool.heap i).close_count ≤ 1) × (1 ≤ uses i w → (w.pool.heap i).close_count ≡ 0)
  closed_once w r i =
      let s : IsSound w i = (Reach-Inv w r).1 i in
      (omega (arith, s.once), λ l. ground (arith, s.unused, s.once))

  -- After any steps, a connection whose attempt did not fail is not lost: it was closed, or it stands
  -- in the pool, among its connections or among the dead ones, and only once.
  pub none_lost :
      (w : World K)
      → Reach empty_world w
      → (i : ℕ) → i < w.pool.next
      → failed (w.pool.heap i) ≡ false
      → (w.pool.heap i).close_count + (count_value i w.pool.conns + count i w.pool.dead_conns) ≡ 1
  none_lost w r i l f =
      let s : IsSound w i = (Reach-Inv w r).1 i in omega (arith, s.once, s.pooled l f)
