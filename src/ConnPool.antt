-- ===== src/ConnPool.antt =====
-- pkg/operator/toposerver/connpool.go: the process-wide pool of connections to topology servers.
--
-- A `*Conn` is a number, and `heap` holds what it points at. A background attempt that has not
-- finished is `pending`; the channel `connectDone` and the fields that it guards are the one field
-- `attempt`. `close_count` counts the calls of `Server.Close`. Times are numbers of nanoseconds. The
-- reference count is not negative: only who holds a reference gives one back (ConnPool/Steps).
pub mod Counting
mod Collecting
pub mod Steps
pub mod Invariant
mod Preserved
mod Alive
pub mod Collection
pub mod Safety
use vitess_operator.Prelude.{
  ℕ, suc, ◌+◌, ◌-◌, ◌*◌, Bool, true, false, ◌&&◌, Option, none, some, List, [], ◌∷◌, ◌++◌, Map,
  lookup, insert, delete, Comparable, ◌==◌, ltb, leb, nat_eq, if◌then◌else◌,
}

abbrev pub second : ℕ
second = 1000000000

abbrev pub idle_ttl : ℕ
idle_ttl = 60 * second

abbrev pub liveness_check_period : ℕ
liveness_check_period = 10 * second

pub data Attempt : Type 0 where
  pending connected refused : Attempt

pub record Conn : Type 0 where
  pub attempt : Attempt
  pub ref_count : ℕ
  pub last_opened : ℕ
  pub last_checked : ℕ
  pub close_count : ℕ

abbrev pub Heap : Type 0
Heap = ℕ → Conn

-- `*i = c`
abbrev pub store : ℕ → Conn → Heap → Heap
store i c heap j = if j == i then c else heap j

abbrev pub failed : Conn → Bool
failed c = elim c.attempt [ refused ↦ true | _ ↦ false ]

abbrev pub succeeded : Conn → Bool
succeeded c = elim c.attempt [ connected ↦ true | _ ↦ false ]

abbrev pub new_conn : ℕ → Conn
new_conn now = record {
  attempt = pending;
  ref_count = 0;
  last_opened = now;
  last_checked = now;
  close_count = 0;
}

-- The first and the last part of `Conn.open`, and `Conn.Close`.
abbrev pub enter : ℕ → Conn → Conn
enter now c = record c { ref_count = suc c.ref_count; last_opened = now }

abbrev pub leave : Conn → Conn
leave c = record c { ref_count = c.ref_count - 1 }

abbrev pub finish_attempt : Attempt → Conn → Conn
finish_attempt a c = record c { attempt = a }

-- `shouldCheck`: the new connection, and the answer.
unfoldable pub should_check : ℕ → Conn → Conn × Bool
should_check now c =
    if leb liveness_check_period (now - c.last_checked)
    then (record c { last_checked = now }, true)
    else (c, false)

-- `Server.Close()`, which panics on the nil server of an attempt that has not succeeded.
abbrev pub close_server : ℕ → Heap → Option Heap
close_server i heap =
    let c = heap i in
    if succeeded c then some (store i (record c { close_count = suc c.close_count }) heap) else none

-- The two loops of `gc`. A panic is `none`.
abbrev pub keep_entry : {A : Type 0} → A → Option (List A × Heap) → Option (List A × Heap)
keep_entry x none = none
keep_entry x (some (xs, heap)) = some (x ∷ xs, heap)

unfoldable pub gc_conns : {K : Type 0} → ℕ → Map K ℕ → Heap → Option (Map K ℕ × Heap)
gc_conns now [] heap = some ([], heap)
gc_conns now ((params, i) ∷ conns) heap =
    let c = heap i in
    elim (failed c) [
      | true ↦ gc_conns now conns heap
      | false ↦ elim (leb c.ref_count 0 && ltb idle_ttl (now - c.last_opened)) [
        | false ↦ keep_entry (params, i) (gc_conns now conns heap)
        | true ↦ elim (close_server i heap) [ none ↦ none | some heap' ↦ gc_conns now conns heap' ]
      ]
    ]

unfoldable pub gc_dead : List ℕ → Heap → Option (List ℕ × Heap)
gc_dead [] heap = some ([], heap)
gc_dead (i ∷ dead_conns) heap = elim (leb (heap i).ref_count 0) [
  | false ↦ keep_entry i (gc_dead dead_conns heap)
  | true ↦ elim (close_server i heap) [ none ↦ none | some heap' ↦ gc_dead dead_conns heap' ]
]

pub record Pool (K : Type 0) : Type 0 where
  pub conns : Map K ℕ
  pub dead_conns : List ℕ
  pub heap : Heap
  -- The number of the next connection.
  pub next : ℕ

module _ {K : Type 0} ⦃cmp : Comparable K⦄ where
  abbrev pub start_attempt : K → ℕ → Pool K → ℕ × Pool K
  start_attempt params now p = (
    p.next,
    record p {
      conns = insert params p.next p.conns;
      heap = store p.next (new_conn now) p.heap;
      next = suc p.next;
    },
  )

  -- `get`, without the check that it starts in the background.
  unfoldable pub get : K → ℕ → Pool K → ℕ × Pool K
  get params now p = elim (lookup params p.conns) [
    | none ↦ start_attempt params now p
    | some i ↦
        if failed (p.heap i)
        then start_attempt params now (record p { conns = delete params p.conns })
        else (i, p)
  ]

  -- The first part of `checkConn`: the connection to be checked, if there is one.
  unfoldable pub begin_check : K → ℕ → Pool K → Option (ℕ × Pool K)
  unfolding should_check
  begin_check params now p = elim (lookup params p.conns) [
    | none ↦ none
    | some i ↦
        if succeeded (p.heap i)
        then (let (c, due) = should_check now (p.heap i) in
            if due then some (i, record p { heap = store i c p.heap }) else none)
        else none
  ]

  -- The last part of `checkConn`, for a connection that did not answer.
  unfoldable pub drop_conn : K → ℕ → Pool K → Pool K
  drop_conn params i p = elim (lookup params p.conns) [
    | none ↦ p
    | some j ↦
        if j == i
        then record p { conns = delete params p.conns; dead_conns = p.dead_conns ++ i ∷ [] }
        else p
  ]

  unfoldable pub gc : ℕ → Pool K → Option (Pool K)
  unfolding gc_conns gc_dead
  gc now p = elim (gc_conns now p.conns p.heap) [
    | none ↦ none
    | some (conns, heap) ↦ elim (gc_dead p.dead_conns heap) [
      | none ↦ none
      | some (dead_conns, heap') ↦
          some (record p { conns = conns; dead_conns = dead_conns; heap = heap' })
    ]
  ]
