-- ===== src/Drain/Transitions.antt =====
-- What `StateTransitions` decides, for every map of states and every order of its entries.
use vitess_operator.Prelude.{
  ◌≡◌, refl, ap, sym, ◌∙◌, Option-cases, ◌==◌, if◌then◌else◌, str_lt-IsOrder, ◌≢◌, ◌⊎◌, inl, inr,
  ◌↔◌, String, Bool, true, false, ◌&&◌, Option, none, some, List, [], Map, lookup, keys, UniqueKeys,
  lookup-insert, eq_iff, string_eq, arith, str_lt, sort_by, In, sort_by-IsSorted, In-sort_by_iff,
  In-keys_iff, str_lt_antisymm,
}
use vitess_operator.Drain.{
  State, draining, acknowledged_state, finished_state, scan, state_transitions, is_acknowledged,
}
use vitess_operator.Drain.Scan.{
  after_scan, lookup-scan, calm, scan_flag, state_of, calm-lookup, lookup-calm, first_acknowledged,
  mark, mark_first-eq-mark, first_acknowledged-least, first_acknowledged_sound,
  first_acknowledged_complete,
}

-- `n` may be finished: it is acknowledged, nothing is draining or finished, and no smaller name is
-- acknowledged.
abbrev pub IsNext : Map String State → String → Type 0
IsNext states n =
    (lookup n states ≡ some acknowledged_state)
    × ((k : String) → lookup k states ≢ some draining)
    × ((k : String) → lookup k states ≢ some finished_state)
    × ((k : String) → lookup k states ≡ some acknowledged_state → str_lt k n ≡ false)

-- What the map of transitions says of the map of states that it was computed from.
pub record IsTransition (states out : Map String State) : Type 0 where
  pub acknowledges :
      (n : String) → (lookup n out ≡ some acknowledged_state) ↔ (lookup n states ≡ some draining)
  pub finishes : (n : String) → (lookup n out ≡ some finished_state) ↔ IsNext states n
  pub only :
      (n : String) (s : State)
      → lookup n out ≡ some s
      → (s ≡ acknowledged_state) ⊎ (s ≡ finished_state)

abbrev next_finished : Map String State → Option String
next_finished states = first_acknowledged states (sort_by str_lt (keys states))

abbrev is_name : Option String → String → Bool
is_name none n = false
is_name (some m) n = m == n

lookup-mark :
    (n : String) (o : Option String) (transitions : Map String State)
    → lookup n (mark o transitions)
      ≡ (if is_name o n then some finished_state else lookup n transitions)
lookup-mark n none transitions = refl
lookup-mark n (some m) transitions = lookup-insert n m finished_state transitions

lookup-state_transitions :
    (states : Map String State) (n : String)
    → UniqueKeys states
    → lookup n (state_transitions states) ≡ (
        if calm states && is_name (next_finished states) n
        then some finished_state
        else after_scan (lookup n states) none)
unfolding state_transitions lookup
lookup-state_transitions states n u = ground (
  arith,
  scan_flag states [] true,
  lookup-scan n states [] true u,
  mark_first-eq-mark states (sort_by str_lt (keys states)) (scan states [] true).0,
  lookup-mark n (next_finished states) (scan states [] true).0,
)

module _ (states : Map String State) (n : String) where
  next_finished-IsNext : calm states ≡ true → next_finished states ≡ some n → IsNext states n
  next_finished-IsNext c f = (
    ground (arith, first_acknowledged_sound states names n f),
    (λ k e. ground (arith, calm-lookup states k c)),
    (λ k e. ground (arith, calm-lookup states k c)),
    λ k e.
        first_acknowledged-least states names n k (sort_by-IsSorted str_lt str_lt-IsOrder _) f
          (listed k e) (ground arith),
  )
    where
      names : List String
      names = sort_by str_lt (keys states)

      listed : (k : String) → lookup k states ≡ some acknowledged_state → In k names
      listed k e = (In-sort_by_iff str_lt k (keys states)).1 ((In-keys_iff k states).1 (rw e))

  IsNext-calm : UniqueKeys states → IsNext states n → calm states ≡ true
  IsNext-calm u h = lookup-calm states u λ k. ground (arith, h.1 k, h.2 k)

  IsNext-next_finished : IsNext states n → next_finished states ≡ some n
  IsNext-next_finished h = elim (Option-cases (next_finished states)) [
    | inl e ↦ absurd (ground (arith, first_acknowledged_complete states names n listed))
    | inr (m, e) ↦
        let sound : is_acknowledged (state_of states m) ≡ true =
          first_acknowledged_sound states names m e in
        let below : str_lt n m ≡ false =
          first_acknowledged-least states names m n (sort_by-IsSorted str_lt str_lt-IsOrder _) e
            listed (ground arith) in
        let above : str_lt m n ≡ false = h.3 m (ground arith) in
        rw (str_lt_antisymm m n above below) at e
  ]
    where
      names : List String
      names = sort_by str_lt (keys states)

      listed : In n names
      listed = (In-sort_by_iff str_lt n (keys states)).1 ((In-keys_iff n states).1 (rw h.0))

finished-next_finished :
    (states : Map String State) (n : String)
    → UniqueKeys states
    → lookup n (state_transitions states) ≡ some finished_state
    → (calm states ≡ true) × (next_finished states ≡ some n)
finished-next_finished states n u h =
    ground (arith, lookup-state_transitions states n u, name_of (next_finished states))
  where
    name_of : (o : Option String) → is_name o n ≡ true → o ≡ some n
    name_of none e = cc
    name_of (some m) e = ap some ((eq_iff m n).0 e)

-- `StateTransitions` acknowledges exactly the draining names, finishes exactly the name that may be
-- finished, and asks for nothing else, whatever the order of the entries.
pub state_transitions-IsTransition :
    (states : Map String State) → UniqueKeys states → IsTransition states (state_transitions states)
state_transitions-IsTransition states u = record {
  acknowledges = λ n. ground (arith, lookup-state_transitions states n u, calm-lookup states n);
  finishes = λ n. (
    (λ h. let (c, f) = finished-next_finished states n u h in next_finished-IsNext states n c f),
    λ h. ground (
      arith,
      lookup-state_transitions states n u,
      IsNext-calm states n u h,
      IsNext-next_finished states n h,
      eq_iff n n,
    ),
  );
  only = λ n s h. ground (arith, lookup-state_transitions states n u);
}

-- At most one name is finished by a pass.
pub state_transitions_unique :
    (states : Map String State) (n m : String)
    → UniqueKeys states
    → lookup n (state_transitions states) ≡ some finished_state
    → lookup m (state_transitions states) ≡ some finished_state
    → n ≡ m
state_transitions_unique states n m u h k =
    cc ((finished-next_finished states n u h).1, (finished-next_finished states m u k).1)

IsNext-carry :
    (states states' : Map String State) (n : String)
    → ((k : String) → lookup k states ≡ lookup k states')
    → IsNext states n
    → IsNext states' n
IsNext-carry states states' n same h = (
  sym (same n) ∙ h.0,
  (λ k e. h.1 k (same k ∙ e)),
  (λ k e. h.2 k (same k ∙ e)),
  λ k e. h.3 k (same k ∙ e),
)

-- What one list asks for a name, a list with the same reads asks too.
carry :
    (states states' : Map String State)
    → UniqueKeys states
    → UniqueKeys states'
    → ((k : String) → lookup k states ≡ lookup k states')
    → (n : String) (s : State) → lookup n (state_transitions states) ≡ some s
    → lookup n (state_transitions states') ≡ some s
carry states states' u u' same n s h =
    let before = state_transitions-IsTransition states u in
    let after = state_transitions-IsTransition states' u' in
    elim (before.only n s h) [
      | inl e ↦
          let asked = (before.acknowledges n).0 (h ∙ ap some e) in
          (after.acknowledges n).1 (sym (same n) ∙ asked) ∙ ap some (sym e)
      | inr e ↦
          let next = (before.finishes n).0 (h ∙ ap some e) in
          (after.finishes n).1 (IsNext-carry states states' n same next) ∙ ap some (sym e)
    ]

same_option :
    (a b : Option State)
    → ((s : State) → a ≡ some s → b ≡ some s)
    → ((s : State) → b ≡ some s → a ≡ some s)
    → a ≡ b
same_option none none h k = refl
same_option none (some s) h k = k s refl
same_option (some s) b h k = sym (h s refl)

-- The entries of the map may be met in any order: two lists that answer every read alike have
-- transitions that answer every read alike.
pub state_transitions_order :
    (states states' : Map String State)
    → UniqueKeys states
    → UniqueKeys states'
    → ((k : String) → lookup k states ≡ lookup k states')
    → (n : String) → lookup n (state_transitions states) ≡ lookup n (state_transitions states')
state_transitions_order states states' u u' same n =
    same_option (lookup n (state_transitions states)) (lookup n (state_transitions states'))
      (carry states states' u u' same n) (carry states' states u' u (λ k. sym (same k)) n)
