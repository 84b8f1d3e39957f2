-- ===== src/ConnPool/Collecting.antt =====
-- What a collection does to each connection.
use vitess_operator.Prelude.{
  ◌≡◌, refl, sym, subst, inl, inr, ℕ, ◌+◌, ◌-◌, ◌≤◌, ◌<◌, Bool, true, false, ◌&&◌, Option, none,
  some, Option-cases, Bool-cases, List, [], ◌∷◌, Map, lookup, UniqueKeys, Comparable, ◌==◌, nat_eq,
  leb, ltb, arith,
}
use vitess_operator.ConnPool.{
  Conn, Heap, failed, close_server, keep_entry, gc_conns, gc_dead, idle_ttl,
}
use vitess_operator.ConnPool.Counting.{one_if, count, count_value}

-- The connection before and after a collection, and how often it stood in the pool before and after:
-- it leaves the pool exactly as often as it is closed, unless its attempt failed, and it is closed
-- only without references.
pub record IsCollected (c c' : Conn) (before after : ℕ) : Type 0 where
  pub same_attempt : c'.attempt ≡ c.attempt
  pub same_refs : c'.ref_count ≡ c.ref_count
  pub spent : c'.close_count + after ≤ c.close_count + before
  pub grows : c.close_count ≤ c'.close_count
  pub unused : c.close_count < c'.close_count → c.ref_count ≡ 0
  pub kept : failed c ≡ false → c'.close_count + after ≡ c.close_count + before

-- Closing one connection.
closed-IsCollected :
    (i j : ℕ) (heap heap' : Heap) (c' : Conn) (before after : ℕ)
    → close_server i heap ≡ some heap'
    → (heap i).ref_count ≡ 0
    → IsCollected (heap' j) c' before after
    → IsCollected (heap j) c' (one_if (i == j) + before) after
closed-IsCollected i j heap heap' c' before after e r h = record {
  same_attempt = ground (arith, h.same_attempt);
  same_refs = ground (arith, h.same_refs);
  spent = ground (arith, h.spent);
  grows = ground (arith, h.grows);
  unused = ground (arith, h.unused);
  kept = ground (arith, h.kept);
}

stays-IsCollected : (c : Conn) (n : ℕ) → IsCollected c c n n
stays-IsCollected c n = record {
  same_attempt = refl;
  same_refs = refl;
  spent = omega arith;
  grows = omega arith;
  unused = λ l. absurd (omega arith);
  kept = λ e. refl;
}

-- One more entry, which stays.
kept-IsCollected :
    (c c' : Conn) (before after n : ℕ)
    → IsCollected c c' before after
    → IsCollected c c' (n + before) (n + after)
kept-IsCollected c c' before after n h = record {
  same_attempt = h.same_attempt;
  same_refs = h.same_refs;
  spent = omega (arith, h.spent);
  grows = h.grows;
  unused = h.unused;
  kept = λ e. omega (arith, h.kept e);
}

-- One more entry, whose attempt failed, and which is dropped.
dropped-IsCollected :
    (i j : ℕ) (heap : Heap) (c' : Conn) (before after : ℕ)
    → failed (heap i) ≡ true
    → IsCollected (heap j) c' before after
    → IsCollected (heap j) c' (one_if (i == j) + before) after
dropped-IsCollected i j heap c' before after f h = record {
  same_attempt = h.same_attempt;
  same_refs = h.same_refs;
  spent = omega (arith, h.spent);
  grows = h.grows;
  unused = h.unused;
  kept = λ e. ground (arith, h.kept e);
}

abbrev pub IsDeadResult : List ℕ → Heap → Option (List ℕ × Heap) → Type 0
IsDeadResult dead heap none = Unit
IsDeadResult dead heap (some (dead', heap')) =
    (j : ℕ) → IsCollected (heap j) (heap' j) (count j dead) (count j dead')

after_close :
    (i : ℕ) (dead : List ℕ) (heap heap1 : Heap)
    → close_server i heap ≡ some heap1
    → (heap i).ref_count ≡ 0
    → (r : Option (List ℕ × Heap)) → IsDeadResult dead heap1 r
    → IsDeadResult (i ∷ dead) heap r
after_close i dead heap heap1 c z none h = tt
after_close i dead heap heap1 c z (some (dead', heap')) h =
    λ j. closed-IsCollected i j heap heap1 (heap' j) (count j dead) (count j dead') c z (h j)

pub gc_dead-IsDeadResult :
    (dead : List ℕ) (heap : Heap) → IsDeadResult dead heap (gc_dead dead heap)
unfolding gc_dead
gc_dead-IsDeadResult [] heap = λ j. stays-IsCollected (heap j) 0
gc_dead-IsDeadResult (i ∷ dead) heap = elim (Bool-cases (leb (heap i).ref_count 0)) [
  | inr r ↦
      let rest : IsDeadResult dead heap (gc_dead dead heap) = gc_dead-IsDeadResult dead heap in
      elim (Option-cases (gc_dead dead heap)) [
        | inl e ↦
            let go : gc_dead (i ∷ dead) heap ≡ none = ground arith in
            subst (IsDeadResult (i ∷ dead) heap) (sym go) tt
        | inr ((dead', heap'), e) ↦
            let go : gc_dead (i ∷ dead) heap ≡ some (i ∷ dead', heap') = ground arith in
            let h : IsDeadResult dead heap (some (dead', heap')) =
              subst (IsDeadResult dead heap) e rest in
            subst (IsDeadResult (i ∷ dead) heap) (sym go) (λ j.
              kept-IsCollected (heap j) (heap' j) (count j dead) (count j dead') (one_if (i == j))
                (h j))
      ]
  | inl r ↦ elim (Option-cases (close_server i heap)) [
    | inl c ↦
        let go : gc_dead (i ∷ dead) heap ≡ none = ground arith in
        subst (IsDeadResult (i ∷ dead) heap) (sym go) tt
    | inr (heap1, c) ↦
        let go : gc_dead (i ∷ dead) heap ≡ gc_dead dead heap1 = ground arith in
        subst (IsDeadResult (i ∷ dead) heap) (sym go) (
          after_close i dead heap heap1 c (ground arith) (gc_dead dead heap1)
            (gc_dead-IsDeadResult dead heap1))
  ]
]

pub IsDeadResult-of :
    (dead : List ℕ) (heap : Heap) (dead' : List ℕ) (heap' : Heap)
    → gc_dead dead heap ≡ some (dead', heap')
    → IsDeadResult dead heap (some (dead', heap'))
IsDeadResult-of dead heap dead' heap' e =
    subst (IsDeadResult dead heap) e (gc_dead-IsDeadResult dead heap)

module _ {K : Type 0} ⦃cmp : Comparable K⦄ where
  abbrev pub IsConnsResult : Map K ℕ → Heap → Option (Map K ℕ × Heap) → Type 0
  IsConnsResult m heap none = Unit
  IsConnsResult m heap (some (m', heap')) =
      ((j : ℕ) → IsCollected (heap j) (heap' j) (count_value j m) (count_value j m'))
      × ((k : K) → lookup k m ≡ none → lookup k m' ≡ none)
      × (UniqueKeys m → UniqueKeys m')

  lookup-tail : (k j : K) (i : ℕ) (m : Map K ℕ) → lookup k ((j, i) ∷ m) ≡ none → lookup k m ≡ none
  unfolding lookup
  lookup-tail k j i m e = ground arith

  lookup-kept :
      (k j : K) (i : ℕ) (m m' : Map K ℕ)
      → (lookup k m ≡ none → lookup k m' ≡ none)
      → lookup k ((j, i) ∷ m) ≡ none
      → lookup k ((j, i) ∷ m') ≡ none
  unfolding lookup
  lookup-kept k j i m m' h e = ground (arith, h)

  conns_kept :
      (k : K) (i : ℕ) (m : Map K ℕ) (heap : Heap) (r : Option (Map K ℕ × Heap))
      → IsConnsResult m heap r
      → IsConnsResult ((k, i) ∷ m) heap (keep_entry (k, i) r)
  conns_kept k i m heap none h = tt
  conns_kept k i m heap (some (m', heap')) h = (
    (λ j.
        kept-IsCollected (heap j) (heap' j) (count_value j m) (count_value j m') (one_if (i == j))
          (h.0 j)),
    (λ l e. lookup-kept l k i m m' (h.1 l) e),
    λ u. (h.1 k u.0, h.2 u.1),
  )

  conns_dropped :
      (k : K) (i : ℕ) (m : Map K ℕ) (heap : Heap) (r : Option (Map K ℕ × Heap))
      → failed (heap i) ≡ true
      → IsConnsResult m heap r
      → IsConnsResult ((k, i) ∷ m) heap r
  conns_dropped k i m heap none f h = tt
  conns_dropped k i m heap (some (m', heap')) f h = (
    (λ j. dropped-IsCollected i j heap (heap' j) (count_value j m) (count_value j m') f (h.0 j)),
    (λ l e. h.1 l (lookup-tail l k i m e)),
    λ u. h.2 u.1,
  )

  conns_closed :
      (k : K) (i : ℕ) (m : Map K ℕ) (heap heap1 : Heap) (r : Option (Map K ℕ × Heap))
      → close_server i heap ≡ some heap1
      → (heap i).ref_count ≡ 0
      → IsConnsResult m heap1 r
      → IsConnsResult ((k, i) ∷ m) heap r
  conns_closed k i m heap heap1 none c z h = tt
  conns_closed k i m heap heap1 (some (m', heap')) c z h = (
    (λ j.
        closed-IsCollected i j heap heap1 (heap' j) (count_value j m) (count_value j m') c z
          (h.0 j)),
    (λ l e. h.1 l (lookup-tail l k i m e)),
    λ u. h.2 u.1,
  )

  pub gc_conns-IsConnsResult :
      (now : ℕ) (m : Map K ℕ) (heap : Heap) → IsConnsResult m heap (gc_conns now m heap)
  unfolding gc_conns
  gc_conns-IsConnsResult now [] heap = ((λ j. stays-IsCollected (heap j) 0), (λ k e. e), λ u. u)
  gc_conns-IsConnsResult now ((k, i) ∷ m) heap = elim (Bool-cases (failed (heap i))) [
    | inl f ↦
        let go : gc_conns now ((k, i) ∷ m) heap ≡ gc_conns now m heap = ground arith in
        subst (IsConnsResult ((k, i) ∷ m) heap) (sym go)
          (conns_dropped k i m heap (gc_conns now m heap) f (gc_conns-IsConnsResult now m heap))
    | inr f ↦
        let idle : Bool = leb (heap i).ref_count 0 && ltb idle_ttl (now - (heap i).last_opened) in
        elim (Bool-cases idle) [
          | inr b ↦
              let go : gc_conns now ((k, i) ∷ m) heap ≡ keep_entry (k, i) (gc_conns now m heap) =
                ground arith in
              subst (IsConnsResult ((k, i) ∷ m) heap) (sym go)
                (conns_kept k i m heap (gc_conns now m heap) (gc_conns-IsConnsResult now m heap))
          | inl b ↦ elim (Option-cases (close_server i heap)) [
            | inl c ↦
                let go : gc_conns now ((k, i) ∷ m) heap ≡ none = ground arith in
                subst (IsConnsResult ((k, i) ∷ m) heap) (sym go) tt
            | inr (heap1, c) ↦
                let go : gc_conns now ((k, i) ∷ m) heap ≡ gc_conns now m heap1 = ground arith in
                subst (IsConnsResult ((k, i) ∷ m) heap) (sym go) (
                  conns_closed k i m heap heap1 (gc_conns now m heap1) c (ground arith)
                    (gc_conns-IsConnsResult now m heap1))
          ]
        ]
  ]

  pub IsConnsResult-of :
      (now : ℕ) (m : Map K ℕ) (heap : Heap) (m' : Map K ℕ) (heap' : Heap)
      → gc_conns now m heap ≡ some (m', heap')
      → IsConnsResult m heap (some (m', heap'))
  IsConnsResult-of now m heap m' heap' e =
      subst (IsConnsResult m heap) e (gc_conns-IsConnsResult now m heap)
