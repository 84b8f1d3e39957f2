-- ===== src/ConnPool/Alive.antt =====
-- About the connections that are being checked, and those that a check has put aside.
use vitess_operator.Prelude.{
  ◌≡◌, subst, ◌∙◌, ap, inl, inr, ℕ, ◌+◌, ◌≤◌, some, Option-cases, [], ◌∷◌, ◌++◌, Map, lookup,
  Comparable, arith, nat_eq,
}
use vitess_operator.ConnPool.{
  pending, connected, store, should_check, Pool, get, begin_check, drop_conn, gc, gc_conns, gc_dead,
}
use vitess_operator.ConnPool.Counting.{count, count-append, count_value}
use vitess_operator.ConnPool.Collecting.{IsCollected, IsDeadResult-of, IsConnsResult-of}
use vitess_operator.ConnPool.Steps.{
  World, Step, find, start_waiting, opened, gave_up, closed, dialled, check_begun, check_passed,
  check_failed, collected, after_get,
}
use vitess_operator.ConnPool.Invariant.{count_value-append}

module _ {K : Type 0} ⦃cmp : Comparable K⦄ where
  abbrev pub IsAlive : World K → Type 0
  IsAlive w =
      (i : ℕ)
      → 1 ≤ count i w.pool.dead_conns + count_value i w.checking
      → ((w.pool.heap i).attempt ≡ connected)

  find-IsAlive :
      (w : World K) (params : K) (now : ℕ)
      → (w.pool.heap w.pool.next).attempt ≡ pending
      → IsAlive w
      → IsAlive (after_get (get params now w.pool) w)
  unfolding get
  find-IsAlive w params now fresh h i l = elim (Option-cases (lookup params w.pool.conns)) [
    | inl n ↦ ground (arith, h i)
    | inr (j, e) ↦ ground (arith, h i)
  ]

  pub begin_check-result :
      (w : World K) (params : K) (now i : ℕ) (p : Pool K)
      → begin_check params now w.pool ≡ some (i, p)
      → (lookup params w.pool.conns ≡ some i)
        × (record w.pool { heap = store i (should_check now (w.pool.heap i)).0 w.pool.heap } ≡ p)
        × ((w.pool.heap i).attempt ≡ connected)
  unfolding begin_check should_check
  begin_check-result w params now i p e = elim (Option-cases (lookup params w.pool.conns)) [
    | inl n ↦ absurd (ground arith)
    | inr (j, l) ↦ (ground arith, ground arith, ground arith)
  ]

  begun-IsAlive :
      (w : World K) (params : K) (now i : ℕ) (p : Pool K)
      → begin_check params now w.pool ≡ some (i, p)
      → IsAlive w
      → IsAlive (record w { pool = p; checking = (params, i) ∷ w.checking })
  unfolding should_check
  begun-IsAlive w params now i p e h =
      let r = begin_check-result w params now i p e in
      subst (λ q. IsAlive (record w { pool = q; checking = (params, i) ∷ w.checking })) r.1
        (λ j l. ground (arith, h j, r.2))

  ended-IsAlive :
      (w : World K) (params : K) (i : ℕ) (xs ys : Map K ℕ)
      → w.checking ≡ xs ++ (params, i) ∷ ys
      → IsAlive w
      → IsAlive (record w { checking = xs ++ ys }) × ((w.pool.heap i).attempt ≡ connected)
  ended-IsAlive w params i xs ys e h = (
    (λ j l. h j (
        ground
          (arith, e, l, count_value-append j xs ((params, i) ∷ ys), count_value-append j xs ys))),
    h i (ground (arith, e, count_value-append i xs ((params, i) ∷ ys))),
  )

  drop_conn-IsAlive :
      (w : World K) (params : K) (i : ℕ)
      → (w.pool.heap i).attempt ≡ connected
      → IsAlive w
      → IsAlive (record w { pool = drop_conn params i w.pool })
  unfolding drop_conn
  drop_conn-IsAlive w params i a h j l = elim (Option-cases (lookup params w.pool.conns)) [
    | inl n ↦ ground (arith, h j)
    | inr (k, m) ↦ ground (arith, h j, count-append j w.pool.dead_conns (i ∷ []))
  ]

  collected-IsAlive :
      (w : World K) (now : ℕ) (p : Pool K)
      → w.checking ≡ []
      → gc now w.pool ≡ some p
      → IsAlive w
      → IsAlive (record w { pool = p })
  unfolding gc
  collected-IsAlive w now p none_checked e h =
      elim (Option-cases (gc_conns now w.pool.conns w.pool.heap)) [
        | inl n ↦ absurd (ground arith)
        | inr ((m, heap), c) ↦ elim (Option-cases (gc_dead w.pool.dead_conns heap)) [
          | inl n ↦ absurd (ground arith)
          | inr ((dead, heap'), d) ↦
              let q : record w.pool { conns = m; dead_conns = dead; heap = heap' } ≡ p =
                ground arith in
              let first = IsConnsResult-of now w.pool.conns w.pool.heap m heap c in
              let second = IsDeadResult-of w.pool.dead_conns heap dead heap' d in
              subst (λ x. IsAlive (record w { pool = x })) q
                (λ j l.
                  let a : IsCollected (w.pool.heap j) (heap j) (count_value j w.pool.conns)
                      (count_value j m) =
                    first.0 j in
                  let b : IsCollected (heap j) (heap' j) (count j w.pool.dead_conns)
                      (count j dead) =
                    second j in
                  let u : count_value j w.checking ≡ 0 = ap (count_value j) none_checked in
                  b.same_attempt ∙ a.same_attempt ∙ h j (omega (arith, l, u, b.spent, b.grows)))
        ]
      ]

  pub Step-IsAlive :
      (w v : World K)
      → ((i : ℕ) → w.pool.next ≤ i → (w.pool.heap i).attempt ≡ pending)
      → IsAlive w
      → Step w v
      → IsAlive v
  Step-IsAlive w v fresh h (find params now) =
      find-IsAlive w params now (fresh w.pool.next (omega arith)) h
  Step-IsAlive w v fresh h (start_waiting i now c) = λ j l. ground (arith, h j)
  Step-IsAlive w v fresh h (opened i c e) = h
  Step-IsAlive w v fresh h (gave_up i c) = λ j l. ground (arith, h j)
  Step-IsAlive w v fresh h (closed i c) = λ j l. ground (arith, h j)
  Step-IsAlive w v fresh h (dialled i a l e) = λ j m. ground (arith, h j)
  Step-IsAlive w v fresh h (check_begun params now i p e) = begun-IsAlive w params now i p e h
  Step-IsAlive w v fresh h (check_passed params i xs ys e) = (ended-IsAlive w params i xs ys e h).0
  Step-IsAlive w v fresh h (check_failed params i xs ys e) =
      let r = ended-IsAlive w params i xs ys e h in
      drop_conn-IsAlive (record w { checking = xs ++ ys }) params i r.1 r.0
  Step-IsAlive w v fresh h (collected now p a b c e) = collected-IsAlive w now p c e h
