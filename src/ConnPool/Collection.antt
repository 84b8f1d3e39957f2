-- ===== src/ConnPool/Collection.antt =====
-- About `gc`: what a collection closes.
use vitess_operator.Prelude.{
  ◌≡◌, refl, ◌∙◌, inl, inr, ℕ, suc, ◌-◌, ◌≤◌, false, ◌&&◌, some, Option-cases, Bool-cases, List, [],
  ◌∷◌, Map, Comparable, arith, leb, ltb, nat_eq,
}
use vitess_operator.ConnPool.{
  idle_ttl, pending, connected, Heap, store, failed, Pool, gc, gc_conns, gc_dead, close_server,
}
use vitess_operator.ConnPool.Counting.{count, count_value}
use vitess_operator.ConnPool.Collecting.{IsCollected, IsDeadResult-of, IsConnsResult-of}
use vitess_operator.ConnPool.Steps.{World, Reach, empty_world}
use vitess_operator.ConnPool.Invariant.{places, IsSound}
use vitess_operator.ConnPool.Safety.{Reach-Inv, Reach-IsAlive}

abbrev closed_at : ℕ → Heap → Heap
closed_at i heap = let c = heap i in store i (record c { close_count = suc c.close_count }) heap

close_server-result :
    (i : ℕ) (heap : Heap)
    → (heap i).attempt ≡ connected
    → close_server i heap ≡ some (closed_at i heap)
close_server-result i heap e = ground arith

gc_dead_emptied :
    (dead : List ℕ) (heap : Heap) (dead' : List ℕ) (heap' : Heap) (j : ℕ)
    → gc_dead dead heap ≡ some (dead', heap')
    → (heap j).ref_count ≡ 0
    → count j dead' ≡ 0
unfolding gc_dead
gc_dead_emptied [] heap dead' heap' j e z = ground arith
gc_dead_emptied (i ∷ dead) heap dead' heap' j e z = elim (Bool-cases (leb (heap i).ref_count 0)) [
  | inr r ↦ elim (Option-cases (gc_dead dead heap)) [
    | inl n ↦ absurd (ground arith)
    | inr ((dead1, heap1), n) ↦ ground (arith, gc_dead_emptied dead heap dead1 heap1 j n z)
  ]
  | inl r ↦ elim (Option-cases (close_server i heap)) [
    | inl c ↦ absurd (ground arith)
    | inr (heap1, c) ↦ gc_dead_emptied dead heap1 dead' heap' j (ground arith) (ground arith)
  ]
]

gc_dead_total :
    (dead : List ℕ) (heap : Heap)
    → ((i : ℕ) → 1 ≤ count i dead → (heap i).attempt ≡ connected)
    → (r : List ℕ × Heap) × (gc_dead dead heap ≡ some r)
unfolding gc_dead
gc_dead_total [] heap h = (([], heap), refl)
gc_dead_total (i ∷ dead) heap h = elim (Bool-cases (leb (heap i).ref_count 0)) [
  | inr r ↦
      let ((dead', heap'), e) = gc_dead_total dead heap (λ j l. h j (omega (arith, l))) in
      ((i ∷ dead', heap'), ground arith)
  | inl r ↦
      let c = close_server-result i heap (h i (ground arith)) in
      let (out, e) = gc_dead_total dead (closed_at i heap) (λ j l. ground (arith, h j)) in
      (out, ground arith)
]

-- No attempt is still pending that nobody opened for longer than a connection may idle.
abbrev pub IsYoung : {K : Type 0} → ℕ → Map K ℕ → Heap → Type 0
IsYoung now m heap =
    (i : ℕ)
    → 1 ≤ count_value i m
    → (heap i).attempt ≡ pending
    → now - (heap i).last_opened ≤ idle_ttl

gc_conns_total :
    {K : Type 0} (now : ℕ) (m : Map K ℕ) (heap : Heap)
    → IsYoung now m heap
    → (r : Map K ℕ × Heap) × (gc_conns now m heap ≡ some r)
unfolding gc_conns
gc_conns_total now [] heap h = (([], heap), refl)
gc_conns_total now ((k, i) ∷ m) heap h =
    let later : IsYoung now m heap = λ j l. h j (omega (arith, l)) in
    elim (Bool-cases (failed (heap i))) [
      | inl f ↦ let (out, e) = gc_conns_total now m heap later in (out, ground arith)
      | inr f ↦
          elim (Bool-cases
            (leb (heap i).ref_count 0 && ltb idle_ttl (now - (heap i).last_opened))) [
              | inr b ↦
                  let ((m', heap'), e) = gc_conns_total now m heap later in
                  (((k, i) ∷ m', heap'), ground arith)
              | inl b ↦
                  let c = close_server-result i heap (ground (arith, h i)) in
                  let (out, e) =
                    gc_conns_total now m (closed_at i heap) (λ j l. ground (arith, later j)) in
                  (out, ground arith)
            ]
    ]

module _ {K : Type 0} ⦃cmp : Comparable K⦄ where
  -- After any steps: if no attempt in the pool is pending that was opened last longer ago than the
  -- idle time, then a collection goes through, and it closes each dead connection that has no
  -- references, once, and takes it out of the pool.
  pub gc_closes_unused :
      (w : World K)
      → Reach empty_world w
      → (now : ℕ) → IsYoung now w.pool.conns w.pool.heap
      → (p : Pool K) × (gc now w.pool ≡ some p)
        × ((i : ℕ)
            → 1 ≤ count i w.pool.dead_conns
            → (w.pool.heap i).ref_count ≡ 0
            → ((p.heap i).close_count ≡ 1) × (places i p ≡ 0))
  unfolding gc
  gc_closes_unused w r now young =
      let ((m, heap), c) = gc_conns_total now w.pool.conns w.pool.heap young in
      let first = IsConnsResult-of now w.pool.conns w.pool.heap m heap c in
      let ((dead, heap'), d) = gc_dead_total w.pool.dead_conns heap (λ i l.
        let a : IsCollected (w.pool.heap i) (heap i) (count_value i w.pool.conns)
            (count_value i m) =
          first.0 i in
        a.same_attempt ∙ Reach-IsAlive w r i (omega (arith, l))) in
      let second = IsDeadResult-of w.pool.dead_conns heap dead heap' d in
      (
        record w.pool { conns = m; dead_conns = dead; heap = heap' },
        ground arith,
        λ i l z.
            let s : IsSound w i = (Reach-Inv w r).1 i in
            let a : IsCollected (w.pool.heap i) (heap i) (count_value i w.pool.conns)
                (count_value i m) =
              first.0 i in
            let b : IsCollected (heap i) (heap' i) (count i w.pool.dead_conns) (count i dead) =
              second i in
            let gone = gc_dead_emptied w.pool.dead_conns heap dead heap' i d (a.same_refs ∙ z) in
            let ok : failed (heap i) ≡ false =
              ground (arith, Reach-IsAlive w r i (omega (arith, l)), a.same_attempt) in
            (
              omega (arith, s.once, a.spent, a.grows, b.kept ok, gone),
              omega (arith, s.once, a.spent, a.grows, b.kept ok, gone),
            ),
      )
