-- ===== src/ShardRollout/OneByOne.antt =====
-- What a rollout pass releases: at most one tablet, and which one.
use vitess_operator.Prelude.{
  ◌≡◌, refl, ◌⊎◌, inl, inr, ◌↔◌, sym, subst, ap, String, Bool, true, false, ◌&&◌, none, some, List,
  [], ◌∷◌, ◌++◌, Map, lookup, All, In, arith, eq_iff, string_eq, ◌==◌, Bool-cases, Option-cases,
  is_some, if◌then◌else◌,
}
use vitess_operator.Drain
use vitess_operator.Rollout
use vitess_operator.ShardDrain.{Pod}
use vitess_operator.ShardRollout.{
  Pick, panicked, nothing, picked, Collected, missing_pod, drained, scheduled_tablets, collect,
  first_other, member, pick_pod, pick_scheduled, get_next_scheduled_tablet,
}

In-snoc : (k x : String) (xs : List String) → In k (xs ++ x ∷ []) ↔ (In k xs ⊎ (x ≡ k))
In-snoc k x [] = (
  (λ i. elim i [ inl e ↦ inr e | inr i' ↦ inl i' ]),
  λ i. elim i [ inl i' ↦ inr i' | inr e ↦ inl e ],
)
In-snoc k x (y ∷ xs) = ground (arith, In-snoc k x xs)

member_iff : (k : String) (xs : List String) → (member k xs ≡ true) ↔ In k xs
member_iff k [] = ((λ e. cc), (λ i. elim i [ ]))
member_iff k (x ∷ xs) = ground (arith, member_iff k xs, eq_iff x k)

first_other_sound :
    (p k : String) (xs : List String) → first_other p xs ≡ some k → In k xs × ((k == p) ≡ false)
unfolding first_other
first_other_sound p k [] e = cc
first_other_sound p k (x ∷ xs) e = ground (arith, first_other_sound p k xs)

first_other-none : (p k : String) (xs : List String) → first_other p xs ≡ none → In k xs → p ≡ k
unfolding first_other
first_other-none p k [] e i = elim i [ ]
first_other-none p k (x ∷ xs) e i = ground (arith, first_other-none p k xs, eq_iff x p)

module _ (pods : Map String Pod) where
  abbrev pub is_scheduled : String → Bool
  is_scheduled k = elim (lookup k pods) [ none ↦ false | some pod ↦ Rollout.scheduled pod.meta ]

  abbrev is_drained : String → Bool
  is_drained k = elim (lookup k pods) [ none ↦ false | some pod ↦ Drain.finished pod.meta ]

  abbrev pub HasPods : List String → Type 0
  HasPods ks = All (λ k. is_some (lookup k pods) ≡ true) ks

  abbrev Collects : List String → List String → Collected → Type 0
  Collects ks acc missing_pod = ⊥
  Collects ks acc (drained key pod) =
      In key ks × (lookup key pods ≡ some pod) × (is_scheduled key ≡ true) × (is_drained key ≡ true)
  Collects ks acc (scheduled_tablets out) =
      ((k : String) → In k out ↔ (In k acc ⊎ In k ks × (is_scheduled k ≡ true)))
      × ((k : String) → In k ks → is_scheduled k ≡ true → is_drained k ≡ false)

  Collects-cons :
      (key : String) (ks acc : List String) (r : Collected)
      → (is_scheduled key && is_drained key) ≡ false
      → Collects ks (if is_scheduled key then acc ++ key ∷ [] else acc) r
      → Collects (key ∷ ks) acc r
  Collects-cons key ks acc missing_pod e c = c
  Collects-cons key ks acc (drained k pod) e c = (inr c.0, c.1, c.2, c.3)
  Collects-cons key ks acc (scheduled_tablets out) e c =
      ((λ k. ground (arith, c.0 k, In-snoc k key acc)), λ k i s. ground (arith, c.1 k))

  collect-Collects : (ks acc : List String) → HasPods ks → Collects ks acc (collect pods ks acc)
  unfolding collect
  collect-Collects [] acc h = ((λ k. ground arith), λ k i s. elim i [ ])
  collect-Collects (key ∷ ks) acc h = elim (Option-cases (lookup key pods)) [
    | inl e ↦ absurd (ground (arith, h.0))
    | inr (pod, e) ↦ elim (Bool-cases (Rollout.scheduled pod.meta && Drain.finished pod.meta)) [
      | inl d ↦
          let hit : collect pods (key ∷ ks) acc ≡ drained key pod = ground arith in
          subst (Collects (key ∷ ks) acc) (sym hit) (inl refl, e, ground arith, ground arith)
      | inr d ↦
          let acc' = if is_scheduled key then acc ++ key ∷ [] else acc in
          let go : collect pods (key ∷ ks) acc ≡ collect pods ks acc' = ground arith in
          subst (Collects (key ∷ ks) acc) (sym go) (
            Collects-cons key ks acc (collect pods ks acc') (ground arith)
              (collect-Collects ks acc' h.1))
    ]
  ]

  lookup-is_scheduled :
      (k : String) → is_scheduled k ≡ true → (pod : Pod) × (lookup k pods ≡ some pod)
  lookup-is_scheduled k e = elim (Option-cases (lookup k pods)) [
    | inl n ↦ absurd (ground arith)
    | inr found ↦ found
  ]

-- The order in which `range` meets the keys of a map: each key, and nothing else.
abbrev pub IsVisit : (List String → List String) → Type 0
IsVisit visit = (xs : List String) (k : String) → In k (visit xs) ↔ In k xs

module _ (pods : Map String Pod) (primary_alias : String) (ks : List String) where
  -- A scheduled tablet that is drained; or any scheduled tablet if none is drained, and the primary
  -- only if it is the only one. Nothing is picked only if nothing is scheduled.
  abbrev pub IsNextRelease : Pick → Type 0
  IsNextRelease panicked = ⊥
  IsNextRelease nothing = (k : String) → In k ks → is_scheduled pods k ≡ false
  IsNextRelease (picked key pod) =
      In key ks
      × (lookup key pods ≡ some pod)
      × (is_scheduled pods key ≡ true)
      × ((is_drained pods key ≡ true)
          ⊎ ((k : String)
              → In k ks
              → is_scheduled pods k ≡ true
              → (is_drained pods k ≡ false) × (key ≡ primary_alias → k ≡ primary_alias)))

  module _ (visit : List String → List String) (visits : IsVisit visit) where
    picked_of :
        (out : List String) (key : String)
        → Collects pods ks [] (scheduled_tablets out)
        → In key out
        → (key ≡ primary_alias → (k : String) → In k out → k ≡ primary_alias)
        → IsNextRelease (pick_pod key (lookup key pods))
    picked_of out key c i last =
        let here : In key ks × (is_scheduled pods key ≡ true) = elim ((c.0 key).0 i) [
          | inl j ↦ elim j [ ]
          | inr j ↦ j
        ] in
        let (pod, found) = lookup-is_scheduled pods key here.1 in
        subst IsNextRelease (ap (pick_pod key) (sym found))
          (here.0, found, here.1, inr λ k j s. (c.1 k j s, λ e. last e k ((c.0 k).1 (inr (j, s)))))

    not_scheduled :
        (out : List String) (k : String)
        → Collects pods ks [] (scheduled_tablets out)
        → In k ks
        → ((j : String) → In j out → primary_alias ≡ j)
        → member primary_alias out ≡ false
        → is_scheduled pods k ≡ false
    not_scheduled out k c i only m = elim (Bool-cases (is_scheduled pods k)) [
      | inr e ↦ e
      | inl e ↦
          let at : In k out = (c.0 k).1 (inr (i, e)) in
          let at' : In primary_alias out = subst (λ j. In j out) (sym (only k at)) at in
          absurd (ground (arith, (member_iff primary_alias out).1 at'))
    ]

    carried :
        (r : Collected) (p : Pick)
        → pick_scheduled visit pods primary_alias r ≡ p
        → IsNextRelease p
        → IsNextRelease (pick_scheduled visit pods primary_alias r)
    carried r p e h = subst IsNextRelease (sym e) h

    pick_scheduled-IsNextRelease :
        (r : Collected)
        → Collects pods ks [] r
        → IsNextRelease (pick_scheduled visit pods primary_alias r)
    pick_scheduled-IsNextRelease missing_pod c = c
    pick_scheduled-IsNextRelease (drained key pod) c = (c.0, c.1, c.2, inl c.3)
    pick_scheduled-IsNextRelease (scheduled_tablets out) c =
        elim (Option-cases (first_other primary_alias (visit out))) [
          | inr (key, e) ↦
              let (i, other) = first_other_sound primary_alias key (visit out) e in
              let chosen : IsNextRelease (pick_pod key (lookup key pods)) =
                picked_of out key c ((visits out key).0 i)
                  (λ same. absurd (ground (arith, eq_iff key primary_alias))) in
              carried (scheduled_tablets out) (pick_pod key (lookup key pods)) (ground arith) chosen
          | inl e ↦
              let only : (k : String) → In k out → primary_alias ≡ k =
                λ k i. first_other-none primary_alias k (visit out) e ((visits out k).1 i) in
              elim (Bool-cases (member primary_alias out)) [
                | inl m ↦
                    let chosen : IsNextRelease
                        (pick_pod primary_alias (lookup primary_alias pods)) =
                      picked_of out primary_alias c ((member_iff primary_alias out).0 m)
                        (λ same k i. sym (only k i)) in
                    carried (scheduled_tablets out)
                      (pick_pod primary_alias (lookup primary_alias pods)) (ground arith) chosen
                | inr m ↦
                    let chosen : IsNextRelease nothing = λ k i. not_scheduled out k c i only m in
                    carried (scheduled_tablets out) nothing (ground arith) chosen
              ]
        ]

    pub get_next_scheduled_tablet-IsNextRelease :
        HasPods pods ks → IsNextRelease (get_next_scheduled_tablet visit ks pods primary_alias)
    unfolding get_next_scheduled_tablet
    get_next_scheduled_tablet-IsNextRelease h =
        pick_scheduled-IsNextRelease (collect pods ks []) (collect-Collects pods ks [] h)
