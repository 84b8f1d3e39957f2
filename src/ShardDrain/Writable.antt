-- ===== src/ShardDrain/Writable.antt =====
-- The transitions of a pass can be written: each has a Pod, and none is the state that it panics on.
use vitess_operator.Prelude.{
  ◌≡◌, refl, String, Bool, true, false, List, [], ◌∷◌, Map, lookup, insert, keys, All, All-In,
  In-All, In-sort_by_iff, sort_by, str_lt, arith, string_eq, is_some,
}
use vitess_operator.Meta.{ObjectMeta}
use vitess_operator.Drain.{
  State, not_draining, draining, acknowledged_state, finished_state, scan, mark_first,
  state_transitions,
}
use vitess_operator.ShardDrain.Inputs.{Pod}
use vitess_operator.ShardDrain.Status.{touch}

pub All-map :
    {A : Type 0} (P Q : A → Type 0) (xs : List A) → ((a : A) → P a → Q a) → All P xs → All Q xs
All-map P Q [] f h = tt
All-map P Q (x ∷ xs) f h = (f x h.0, All-map P Q xs f h.1)

pub All-insert :
    {V : Type 0} (Q : String × V → Type 0) (k : String) (v : V) (m : Map String V)
    → Q (k, v)
    → All Q m
    → All Q (insert k v m)
unfolding insert
All-insert Q k v [] q h = (q, tt)
All-insert Q k v ((j, w) ∷ m) q h = ground (arith, All-insert Q k v m q h.1)

abbrev pub HasPod : Map String Pod → String → Type 0
HasPod pods k = is_some (lookup k pods) ≡ true

abbrev pub is_draining : State → Bool
is_draining draining = true
is_draining _ = false

-- A transition that can be written: there is a Pod, and the state is not "draining".
abbrev pub IsWritable : Map String Pod → String × State → Type 0
IsWritable pods (k, s) = HasPod pods k × (is_draining s ≡ false)

abbrev pub IsCovered : Map String Pod → String × State → Type 0
IsCovered pods (k, s) = HasPod pods k

module _ (pods : Map String Pod) where
  scan-IsWritable :
      (states transitions : Map String State) (can : Bool)
      → All (IsCovered pods) states
      → All (IsWritable pods) transitions
      → All (IsWritable pods) (scan states transitions can).0
  unfolding scan
  scan-IsWritable [] transitions can h g = g
  scan-IsWritable ((k, not_draining) ∷ rest) transitions can h g =
      scan-IsWritable rest transitions can h.1 g
  scan-IsWritable ((k, draining) ∷ rest) transitions can h g =
      scan-IsWritable rest (insert k acknowledged_state transitions) false h.1
        (All-insert (IsWritable pods) k acknowledged_state transitions (h.0, refl) g)
  scan-IsWritable ((k, acknowledged_state) ∷ rest) transitions can h g =
      scan-IsWritable rest transitions can h.1 g
  scan-IsWritable ((k, finished_state) ∷ rest) transitions can h g =
      scan-IsWritable rest transitions false h.1 g

  mark_first-IsWritable :
      (states : Map String State) (names : List String) (transitions : Map String State)
      → All (HasPod pods) names
      → All (IsWritable pods) transitions
      → All (IsWritable pods) (mark_first states names transitions)
  unfolding mark_first
  mark_first-IsWritable states [] transitions h g = g
  mark_first-IsWritable states (n ∷ names) transitions h g = ground (
    arith,
    mark_first-IsWritable states names transitions h.1 g,
    All-insert (IsWritable pods) n finished_state transitions (h.0, refl) g,
  )

  keys-HasPod :
      (states : Map String State) → All (IsCovered pods) states → All (HasPod pods) (keys states)
  keys-HasPod [] h = tt
  keys-HasPod ((k, s) ∷ states) h = (h.0, keys-HasPod states h.1)

  pub state_transitions-IsWritable :
      (states : Map String State)
      → All (IsCovered pods) states
      → All (IsWritable pods) (state_transitions states)
  unfolding state_transitions
  state_transitions-IsWritable states h =
      let scanned = scan-IsWritable states [] true h tt in
      let names : All (HasPod pods) (sort_by str_lt (keys states)) =
        In-All (HasPod pods) (sort_by str_lt (keys states)) (λ a i.
          All-In (HasPod pods) a (keys states) (keys-HasPod states h)
            ((In-sort_by_iff str_lt a (keys states)).0 i)) in
      ground (
        arith,
        scanned,
        mark_first-IsWritable states (sort_by str_lt (keys states)) (scan states [] true).0 names
            scanned,
      )

pub touch-is_some :
    (now : String) (s : State) (m : ObjectMeta)
    → is_draining s ≡ false
    → is_some (touch now s m) ≡ true
unfolding touch
touch-is_some now not_draining m h = refl
touch-is_some now draining m h = cc
touch-is_some now acknowledged_state m h = ground arith
touch-is_some now finished_state m h = ground arith
