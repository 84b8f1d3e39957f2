-- ===== src/ConnPool/Preserved.antt =====
-- About the steps that change the pool itself.
use vitess_operator.Prelude.{
  ◌≡◌, sym, subst, ◌∙◌, ap, inl, inr, ℕ, ◌+◌, ◌<◌, true, false, none, some, Option-cases,
  Bool-cases, List, [], ◌∷◌, ◌++◌, Map, lookup, delete, lookup-delete, insert-UniqueKeys,
  delete-UniqueKeys, Comparable, ◌==◌, nat_eq, arith,
}
use vitess_operator.ConnPool.{
  Attempt, pending, Conn, Heap, store, failed, finish_attempt, should_check, Pool, start_attempt,
  get, drop_conn, gc, gc_conns, gc_dead,
}
use vitess_operator.ConnPool.Counting.{
  one_if, count, count-append, count_value, count_value-lookup, count_value-insert,
  count_value-delete,
}
use vitess_operator.ConnPool.Collecting.{
  IsCollected, IsDeadResult, IsDeadResult-of, IsConnsResult, IsConnsResult-of,
}
use vitess_operator.ConnPool.Steps.{World, change, after_get}
use vitess_operator.ConnPool.Invariant.{count_value-append, IsSound, Inv}

module _ {K : Type 0} ⦃cmp : Comparable K⦄ (w : World K) (inv : Inv w) where
  pub dialled-Inv :
      (i : ℕ) (a : Attempt)
      → i < w.pool.next
      → (w.pool.heap i).attempt ≡ pending
      → Inv (record w { pool = change i (finish_attempt a) w.pool })
  dialled-Inv i a l e = (
    inv.0,
    λ j.
        let s : IsSound w j = inv.1 j in
        record {
          refs = ground (arith, s.refs);
          once = ground (arith, s.once);
          unused = ground (arith, s.unused);
          unborn = ground (arith, s.unborn);
          pooled = ground (arith, s.pooled);
        },
  )

  pub check_ended-Inv :
      (params : K) (i : ℕ) (xs ys : Map K ℕ)
      → w.checking ≡ xs ++ (params, i) ∷ ys
      → Inv (record w { checking = xs ++ ys })
  check_ended-Inv params i xs ys e = (
    inv.0,
    λ j.
        let s : IsSound w j = inv.1 j in
        let c : count_value j w.checking ≡ one_if (i == j) + count_value j (xs ++ ys) =
          ground
            (arith, e, count_value-append j xs ((params, i) ∷ ys), count_value-append j xs ys) in
        record {
          refs = s.refs;
          once = s.once;
          unused = omega (arith, s.unused, c);
          unborn = λ l. ((s.unborn l).0, omega (arith, (s.unborn l).1, c));
          pooled = s.pooled;
        },
  )

  abbrev begun : (params : K) (i : ℕ) (c : Conn) → World K
  begun params i c = record w {
    pool = record w.pool { heap = store i c w.pool.heap };
    checking = (params, i) ∷ w.checking;
  }

  pub check_begun-Inv :
      (params : K) (now i : ℕ)
      → lookup params w.pool.conns ≡ some i
      → Inv (begun params i (should_check now (w.pool.heap i)).0)
  unfolding should_check
  check_begun-Inv params now i e = (
    inv.0,
    λ j.
        let s : IsSound w j = inv.1 j in
        let c = count_value-lookup params i w.pool.conns e in
        record {
          refs = ground (arith, s.refs);
          once = ground (arith, s.once);
          unused = ground (arith, s.unused, s.once, c);
          unborn = ground (arith, s.unborn, c);
          pooled = ground (arith, s.pooled);
        },
  )

  dropped-Inv :
      (params : K) (i : ℕ)
      → lookup params w.pool.conns ≡ some i
      → Inv (record w {
        pool = record w.pool {
          conns = delete params w.pool.conns;
          dead_conns = w.pool.dead_conns ++ i ∷ [];
        };
      })
  dropped-Inv params i e = (
    delete-UniqueKeys params w.pool.conns inv.0,
    λ j.
        let s : IsSound w j = inv.1 j in
        let c = count_value-delete params i j w.pool.conns inv.0 e in
        let d = count-append j w.pool.dead_conns (i ∷ []) in
        record {
          refs = s.refs;
          once = omega (arith, s.once, c, d);
          unused = s.unused;
          unborn = λ l. ((s.unborn l).0, omega (arith, (s.unborn l).1, c, d));
          pooled = λ l f. omega (arith, s.pooled l f, c, d);
        },
  )

  pub drop_conn-Inv : (params : K) (i : ℕ) → Inv (record w { pool = drop_conn params i w.pool })
  unfolding drop_conn
  drop_conn-Inv params i = elim (Option-cases (lookup params w.pool.conns)) [
    | inl e ↦
        let same : drop_conn params i w.pool ≡ w.pool = ground arith in
        subst (λ p. Inv (record w { pool = p })) (sym same) inv
    | inr (j, e) ↦ elim (Bool-cases (j == i)) [
      | inr n ↦
          let same : drop_conn params i w.pool ≡ w.pool = ground arith in
          subst (λ p. Inv (record w { pool = p })) (sym same) inv
      | inl n ↦
          let at : lookup params w.pool.conns ≡ some i = ground arith in
          let go : drop_conn params i w.pool ≡ record w.pool {
            conns = delete params w.pool.conns;
            dead_conns = w.pool.dead_conns ++ i ∷ [];
          } =
            ground arith in
          subst (λ p. Inv (record w { pool = p })) (sym go) (dropped-Inv params i at)
    ]
  ]

  -- A failed attempt leaves the pool.
  forgotten-Inv :
      (params : K) (i : ℕ)
      → lookup params w.pool.conns ≡ some i
      → failed (w.pool.heap i) ≡ true
      → Inv (record w { pool = record w.pool { conns = delete params w.pool.conns } })
  forgotten-Inv params i e f = (
    delete-UniqueKeys params w.pool.conns inv.0,
    λ j.
        let s : IsSound w j = inv.1 j in
        let c = count_value-delete params i j w.pool.conns inv.0 e in
        record {
          refs = s.refs;
          once = omega (arith, s.once, c);
          unused = s.unused;
          unborn = λ l. ((s.unborn l).0, omega (arith, (s.unborn l).1, c));
          pooled = λ l g. ground (arith, s.pooled, c);
        },
  )

  reused-Inv :
      (params : K) (i : ℕ) → lookup params w.pool.conns ≡ some i → Inv (after_get (i, w.pool) w)
  reused-Inv params i e = (
    inv.0,
    λ j.
        let s : IsSound w j = inv.1 j in
        let c = count_value-lookup params i w.pool.conns e in
        record {
          refs = s.refs;
          once = s.once;
          unused = ground (arith, s.unused, s.once, c);
          unborn = ground (arith, s.unborn, c);
          pooled = s.pooled;
        },
  )

  started-Inv :
      (params : K) (now : ℕ)
      → lookup params w.pool.conns ≡ none
      → Inv (after_get (start_attempt params now w.pool) w)
  started-Inv params now e = (
    insert-UniqueKeys params w.pool.next w.pool.conns inv.0,
    λ j.
        let s : IsSound w j = inv.1 j in
        let c = count_value-insert params w.pool.next j w.pool.conns e in
        record {
          refs = ground (arith, s.refs, s.unborn);
          once = ground (arith, s.once, s.unborn, c);
          unused = ground (arith, s.unused, s.unborn, c);
          unborn = ground (arith, s.unborn, c);
          pooled = ground (arith, s.pooled, c);
        },
  )

module _ {K : Type 0} ⦃cmp : Comparable K⦄ (w : World K) (inv : Inv w) where
  pub find-Inv : (params : K) (now : ℕ) → Inv (after_get (get params now w.pool) w)
  unfolding get
  find-Inv params now = elim (Option-cases (lookup params w.pool.conns)) [
    | inl e ↦
        let go : get params now w.pool ≡ start_attempt params now w.pool = ground arith in
        subst (λ r. Inv (after_get r w)) (sym go) (started-Inv w inv params now e)
    | inr (i, e) ↦ elim (Bool-cases (failed (w.pool.heap i))) [
      | inr f ↦
          let go : get params now w.pool ≡ (i, w.pool) = ground arith in
          subst (λ r. Inv (after_get r w)) (sym go) (reused-Inv w inv params i e)
      | inl f ↦
          let p = record w.pool { conns = delete params w.pool.conns } in
          let go : get params now w.pool ≡ start_attempt params now p = ground arith in
          subst (λ r. Inv (after_get r w)) (sym go)
            (started-Inv (record w { pool = p }) (forgotten-Inv w inv params i e f) params now
              (ground
                (arith, lookup-delete params params w.pool.conns, cmp.same_iff params params)))
    ]
  ]

  swept-Inv :
      (m : Map K ℕ) (dead : List ℕ) (heap heap' : Heap)
      → w.found ≡ []
      → w.waiting ≡ []
      → w.checking ≡ []
      → IsConnsResult w.pool.conns w.pool.heap (some (m, heap))
      → IsDeadResult w.pool.dead_conns heap (some (dead, heap'))
      → Inv (record w { pool = record w.pool { conns = m; dead_conns = dead; heap = heap' } })
  swept-Inv m dead heap heap' no_found no_waiting no_checking first second = (
    first.2 inv.0,
    λ j.
        let s : IsSound w j = inv.1 j in
        let a : IsCollected (w.pool.heap j) (heap j) (count_value j w.pool.conns)
            (count_value j m) =
          first.0 j in
        let b : IsCollected (heap j) (heap' j) (count j w.pool.dead_conns) (count j dead) =
          second j in
        let u : (count j w.waiting ≡ 0) × (count j w.found ≡ 0) × (count_value j w.checking ≡ 0) =
          (ap (count j) no_waiting, ap (count j) no_found, ap (count_value j) no_checking) in
        record {
          refs = b.same_refs ∙ a.same_refs ∙ s.refs;
          once = omega (arith, s.once, a.spent, b.spent);
          unused =
              ground
                (arith, s.unused, s.refs, a.unused, b.unused, a.same_refs, a.grows, b.grows, u);
          unborn = λ l. (
            b.same_attempt ∙ a.same_attempt ∙ (s.unborn l).0,
            omega (arith, (s.unborn l).1, a.spent, b.spent),
          );
          pooled = λ l f.
              let f1 : failed (heap j) ≡ false = ground (arith, b.same_attempt) in
              let f0 : failed (w.pool.heap j) ≡ false = ground (arith, a.same_attempt) in
              omega (arith, s.pooled l f0, a.kept f0, b.kept f1);
        },
  )

  pub collected-Inv :
      (now : ℕ) (p : Pool K)
      → w.found ≡ []
      → w.waiting ≡ []
      → w.checking ≡ []
      → gc now w.pool ≡ some p
      → Inv (record w { pool = p })
  unfolding gc
  collected-Inv now p no_found no_waiting no_checking e =
      elim (Option-cases (gc_conns now w.pool.conns w.pool.heap)) [
        | inl n ↦ absurd (ground arith)
        | inr ((m, heap), c) ↦ elim (Option-cases (gc_dead w.pool.dead_conns heap)) [
          | inl n ↦ absurd (ground arith)
          | inr ((dead, heap'), d) ↦
              let q : record w.pool { conns = m; dead_conns = dead; heap = heap' } ≡ p =
                ground arith in
              subst (λ x. Inv (record w { pool = x })) q
                (swept-Inv m dead heap heap' no_found no_waiting no_checking
                  (IsConnsResult-of now w.pool.conns w.pool.heap m heap c)
                  (IsDeadResult-of w.pool.dead_conns heap dead heap' d))
        ]
      ]
