-- ===== src/ConnPool/Invariant.antt =====
-- What is to hold of each connection after any steps.
use vitess_operator.Prelude.{
  ◌≡◌, ℕ, ◌+◌, ◌≤◌, ◌<◌, false, [], ◌∷◌, ◌++◌, Map, UniqueKeys, Comparable, nat_eq, arith,
}
use vitess_operator.ConnPool.{pending, failed, enter, leave, Pool}
use vitess_operator.ConnPool.Counting.{count, remove_one, count-remove_one, count_value}
use vitess_operator.ConnPool.Steps.{World, change}

pub count_value-append :
    {K : Type 0} (i : ℕ) (xs ys : Map K ℕ)
    → count_value i (xs ++ ys) ≡ count_value i xs + count_value i ys
count_value-append i [] ys = omega arith
count_value-append i ((k, v) ∷ xs) ys = omega (arith, count_value-append i xs ys)

module _ {K : Type 0} ⦃cmp : Comparable K⦄ where
  abbrev pub uses : ℕ → World K → ℕ
  uses i w = count i w.held + count i w.waiting + count i w.found + count_value i w.checking

  abbrev pub places : ℕ → Pool K → ℕ
  places i p = count_value i p.conns + count i p.dead_conns

  pub record IsSound (w : World K) (i : ℕ) : Type 0 where
    pub refs : (w.pool.heap i).ref_count ≡ count i w.held + count i w.waiting
    -- It stands in the pool at most once, and not after it was closed.
    pub once : (w.pool.heap i).close_count + places i w.pool ≤ 1
    -- Nobody uses it after it was closed.
    pub unused : 1 ≤ (w.pool.heap i).close_count → uses i w ≡ 0
    pub unborn :
        w.pool.next ≤ i
        → ((w.pool.heap i).attempt ≡ pending)
          × ((w.pool.heap i).close_count + places i w.pool + uses i w ≡ 0)
    -- What has not failed and was not closed is in the pool.
    pub pooled :
        i < w.pool.next
        → failed (w.pool.heap i) ≡ false
        → 1 ≤ (w.pool.heap i).close_count + places i w.pool

  abbrev pub Inv : World K → Type 0
  Inv w = UniqueKeys w.pool.conns × ((i : ℕ) → IsSound w i)

  module _ (w : World K) (inv : Inv w) where
    pub start_waiting-Inv :
        (i now : ℕ)
        → 1 ≤ count i w.found
        → Inv (record w {
          found = remove_one i w.found;
          waiting = i ∷ w.waiting;
          pool = change i (enter now) w.pool;
        })
    start_waiting-Inv i now h = (
      inv.0,
      λ j.
          let s : IsSound w j = inv.1 j in
          let c = count-remove_one i j w.found h in
          record {
            refs = ground (arith, s.refs);
            once = ground (arith, s.once);
            unused = ground (arith, s.unused, c);
            unborn = ground (arith, s.unborn, c);
            pooled = ground (arith, s.pooled);
          },
    )

    pub opened-Inv :
        (i : ℕ)
        → 1 ≤ count i w.waiting
        → Inv (record w { waiting = remove_one i w.waiting; held = i ∷ w.held })
    opened-Inv i h = (
      inv.0,
      λ j.
          let s : IsSound w j = inv.1 j in
          let c = count-remove_one i j w.waiting h in
          record {
            refs = omega (arith, s.refs, c);
            once = s.once;
            unused = ground (arith, s.unused, c);
            unborn = ground (arith, s.unborn, c);
            pooled = s.pooled;
          },
    )

    pub gave_up-Inv :
        (i : ℕ)
        → 1 ≤ count i w.waiting
        → Inv (record w { waiting = remove_one i w.waiting; pool = change i leave w.pool })
    gave_up-Inv i h = (
      inv.0,
      λ j.
          let s : IsSound w j = inv.1 j in
          let c = count-remove_one i j w.waiting h in
          record {
            refs = ground (arith, s.refs, c);
            once = ground (arith, s.once);
            unused = ground (arith, s.unused, c);
            unborn = ground (arith, s.unborn, c);
            pooled = ground (arith, s.pooled);
          },
    )

    pub closed-Inv :
        (i : ℕ)
        → 1 ≤ count i w.held
        → Inv (record w { held = remove_one i w.held; pool = change i leave w.pool })
    closed-Inv i h = (
      inv.0,
      λ j.
          let s : IsSound w j = inv.1 j in
          let c = count-remove_one i j w.held h in
          record {
            refs = ground (arith, s.refs, c);
            once = ground (arith, s.once);
            unused = ground (arith, s.unused, c);
            unborn = ground (arith, s.unborn, c);
            pooled = ground (arith, s.pooled);
          },
    )
