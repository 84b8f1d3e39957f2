-- ===== src/Drain/Scan.antt =====
-- The two loops of `StateTransitions`, each against a description of its own.
use vitess_operator.Prelude.{
  ◌≡◌, refl, not, if◌then◌else◌, All-In, str_lt_irrefl, String, Bool, true, false, ◌&&◌, Option,
  none, some, List, [], ◌∷◌, Map, lookup, insert, UniqueKeys, lookup-insert, eq_iff, string_eq,
  arith, str_lt, is_some, or_zero, In, IsSorted,
}
use vitess_operator.Drain.{
  State, not_draining, draining, acknowledged_state, finished_state, scan, mark_first,
  is_acknowledged,
}

-- What the scan leaves of a name: its state before decides, and then what stood there.
abbrev pub after_scan : Option State → Option State → Option State
after_scan (some draining) t = some acknowledged_state
after_scan _ t = t

pub lookup-scan :
    (name : String) (states transitions : Map String State) (can : Bool)
    → UniqueKeys states
    → lookup name (scan states transitions can).0
      ≡ after_scan (lookup name states) (lookup name transitions)
unfolding scan lookup
lookup-scan name [] transitions can h = refl
lookup-scan name ((k, not_draining) ∷ rest) transitions can h =
    ground (arith, lookup-scan name rest transitions can, eq_iff k name)
lookup-scan name ((k, draining) ∷ rest) transitions can h = ground (
  arith,
  lookup-scan name rest (insert k acknowledged_state transitions) false,
  lookup-insert name k acknowledged_state transitions,
  eq_iff k name,
)
lookup-scan name ((k, acknowledged_state) ∷ rest) transitions can h =
    ground (arith, lookup-scan name rest transitions can, eq_iff k name)
lookup-scan name ((k, finished_state) ∷ rest) transitions can h =
    ground (arith, lookup-scan name rest transitions false, eq_iff k name)

abbrev blocks : State → Bool
blocks draining = true
blocks finished_state = true
blocks _ = false

-- No entry forbids to finish another one.
abbrev pub calm : Map String State → Bool
calm [] = true
calm ((k, state) ∷ rest) = not (blocks state) && calm rest

pub scan_flag :
    (states transitions : Map String State) (can : Bool)
    → (scan states transitions can).1 ≡ (can && calm states)
unfolding scan
scan_flag [] transitions can = ground arith
scan_flag ((k, not_draining) ∷ rest) transitions can = scan_flag rest transitions can
scan_flag ((k, draining) ∷ rest) transitions can =
    ground (arith, scan_flag rest (insert k acknowledged_state transitions) false)
scan_flag ((k, acknowledged_state) ∷ rest) transitions can = scan_flag rest transitions can
scan_flag ((k, finished_state) ∷ rest) transitions can =
    ground (arith, scan_flag rest transitions false)

-- The state that Go reads of a name, by `drainStates[name]`.
abbrev pub state_of : Map String State → String → State
state_of states name = or_zero not_draining (lookup name states)

pub calm-lookup :
    (states : Map String State) (k : String)
    → calm states ≡ true
    → blocks (state_of states k) ≡ false
unfolding lookup
calm-lookup [] k h = refl
calm-lookup ((j, s) ∷ rest) k h = ground (arith, calm-lookup rest k)

pub lookup-calm :
    (states : Map String State)
    → UniqueKeys states
    → ((k : String) → blocks (state_of states k) ≡ false)
    → calm states ≡ true
unfolding lookup
lookup-calm [] u h = refl
lookup-calm ((j, s) ∷ rest) u h = ground (arith, lookup-calm rest u.1 tail, h j, eq_iff j j)
  where
    tail : (k : String) → blocks (state_of rest k) ≡ false
    tail k = ground (arith, h k, eq_iff j k, u.0)

-- The first name in the state "acknowledged".
pub first_acknowledged : Map String State → List String → Option String
first_acknowledged states [] = none
first_acknowledged states (n ∷ ns) =
    if is_acknowledged (state_of states n) then some n else first_acknowledged states ns

abbrev pub mark : Option String → Map String State → Map String State
mark none transitions = transitions
mark (some n) transitions = insert n finished_state transitions

pub mark_first-eq-mark :
    (states : Map String State) (ns : List String) (transitions : Map String State)
    → mark_first states ns transitions ≡ mark (first_acknowledged states ns) transitions
unfolding mark_first first_acknowledged
mark_first-eq-mark states [] transitions = refl
mark_first-eq-mark states (n ∷ ns) transitions =
    ground (arith, mark_first-eq-mark states ns transitions)

-- What is found in a sorted list is least.
pub first_acknowledged-least :
    (states : Map String State) (ns : List String) (n k : String)
    → IsSorted str_lt ns
    → first_acknowledged states ns ≡ some n
    → In k ns
    → is_acknowledged (state_of states k) ≡ true
    → str_lt k n ≡ false
unfolding first_acknowledged
first_acknowledged-least states [] n k s f i a = elim i [ ]
first_acknowledged-least states (m ∷ ns) n k s f i a = ground (
  arith,
  first_acknowledged-least states ns n k s.1,
  All-In (λ y. str_lt y m ≡ false) k ns s.0,
  str_lt_irrefl m,
)

pub first_acknowledged_sound :
    (states : Map String State) (ns : List String) (n : String)
    → first_acknowledged states ns ≡ some n
    → is_acknowledged (state_of states n) ≡ true
unfolding first_acknowledged
first_acknowledged_sound states [] n f = cc
first_acknowledged_sound states (m ∷ ns) n f = ground (arith, first_acknowledged_sound states ns n)

pub first_acknowledged_complete :
    (states : Map String State) (ns : List String) (k : String)
    → In k ns
    → is_acknowledged (state_of states k) ≡ true
    → is_some (first_acknowledged states ns) ≡ true
unfolding first_acknowledged
first_acknowledged_complete states [] k i a = elim i [ ]
first_acknowledged_complete states (m ∷ ns) k i a =
    ground (arith, first_acknowledged_complete states ns k)
