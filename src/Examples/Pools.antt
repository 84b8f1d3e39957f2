-- ===== src/Examples/Pools.antt =====
-- Connections that fail their check, are given back and are collected.
use vitess_operator.Prelude.{
  ◌≡◌, refl, ℕ, ◌+◌, ◌*◌, ◌≤◌, [], ◌∷◌, nat_eq, arith, some, lookup, insert, delete,
}
use vitess_operator.ConnPool.{
  Pool, second, connected, get, begin_check, should_check, drop_conn, gc, enter, finish_attempt,
  leave,
}
use vitess_operator.ConnPool.Counting.{count, count_value}
use vitess_operator.ConnPool.Steps.{
  World, find, start_waiting, opened, closed, dialled, check_begun, check_failed, Reach, here, next,
  empty_world, after_get, change,
}
use vitess_operator.ConnPool.Invariant.{uses, places}
use vitess_operator.ConnPool.Safety.{ref_count_exact, closed_once, none_lost}
use vitess_operator.ConnPool.Collection.{gc_closes_unused, IsYoung}

-- A caller opens connection 0 for the server 7.
abbrev found_world : World ℕ
found_world = after_get (get 7 0 empty_world.pool) empty_world

abbrev waiting_world : World ℕ
waiting_world = record found_world {
  found = [];
  waiting = 0 ∷ [];
  pool = change 0 (enter 0) found_world.pool;
}

abbrev opened_world : World ℕ
opened_world = record waiting_world {
  waiting = [];
  held = 0 ∷ [];
  pool = change 0 (finish_attempt connected) waiting_world.pool;
}

opened_reached : Reach empty_world opened_world
unfolding get lookup insert
opened_reached =
    next
      (next (next (next here (find 7 0)) (start_waiting 0 0 (omega arith)))
        (dialled 0 connected (omega arith) refl))
      (opened 0 (omega arith) refl)

-- A check at second 11 finds it dead, and the caller closes it.
abbrev checked_world : World ℕ
checked_world = record opened_world {
  pool = change 0 (λ c. record c { last_checked = 11 * second }) opened_world.pool;
  checking = (7, 0) ∷ [];
}

abbrev closed_world : World ℕ
closed_world = record checked_world {
  held = [];
  checking = [];
  pool = change 0 leave (drop_conn 7 0 checked_world.pool);
}

closed_reached : Reach empty_world closed_world
unfolding get lookup insert begin_check should_check drop_conn delete
closed_reached =
    next
      (next (next opened_reached (check_begun 7 (11 * second) 0 checked_world.pool refl))
        (check_failed 7 0 [] [] refl))
      (closed 0 (omega arith))

ref_count_exact_example : (opened_world.pool.heap 0).ref_count ≡ 1
ref_count_exact_example = ref_count_exact opened_world opened_reached 0

closed_once_example :
    ((opened_world.pool.heap 0).close_count ≤ 1)
    × (1 ≤ uses 0 opened_world → (opened_world.pool.heap 0).close_count ≡ 0)
closed_once_example = closed_once opened_world opened_reached 0

none_lost_example :
    (closed_world.pool.heap 0).close_count
      + (count_value 0 closed_world.pool.conns + count 0 closed_world.pool.dead_conns)
    ≡ 1
unfolding get lookup insert drop_conn delete
none_lost_example = none_lost closed_world closed_reached 0 (omega arith) refl

closed_world-IsYoung : IsYoung (90 * second) closed_world.pool.conns closed_world.pool.heap
unfolding get lookup insert drop_conn delete
closed_world-IsYoung i l = absurd (omega arith)

gc_closes_unused_example :
    (p : Pool ℕ) × (gc (90 * second) closed_world.pool ≡ some p)
    × ((i : ℕ)
        → 1 ≤ count i closed_world.pool.dead_conns
        → (closed_world.pool.heap i).ref_count ≡ 0
        → ((p.heap i).close_count ≡ 1) × (places i p ≡ 0))
gc_closes_unused_example =
    gc_closes_unused closed_world closed_reached (90 * second) closed_world-IsYoung
