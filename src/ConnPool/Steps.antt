-- ===== src/ConnPool/Steps.antt =====
-- How callers, checks, connection attempts and the collector use the pool, as a step relation. Each
-- step is what the source does under one lock; the start of a check, which looks a connection up and
-- then takes its lock, is one step. `openMu` is held for reading by `Open` and by
-- `checkConn` from their first to their last step, and for writing by `gc`: so a collection runs only
-- when no caller is opening and no check is under way.
use vitess_operator.Prelude.{◌≡◌, ℕ, ◌≤◌, ◌<◌, some, List, [], ◌∷◌, ◌++◌, Map, Comparable}
use vitess_operator.ConnPool.{
  Attempt, pending, connected, Conn, store, enter, leave, finish_attempt, new_conn, Pool, get,
  begin_check, drop_conn, gc,
}
use vitess_operator.ConnPool.Counting.{count, remove_one}

pub record World (K : Type 0) : Type 0 where
  pub pool : Pool K
  -- The callers of `Open` between `get` and `open`, and those that wait in `open`.
  pub found : List ℕ
  pub waiting : List ℕ
  -- The references that callers hold, and have to close.
  pub held : List ℕ
  -- The checks under way.
  pub checking : Map K ℕ

abbrev pub change : {K : Type 0} → ℕ → (Conn → Conn) → Pool K → Pool K
change i f p = record p { heap = store i (f (p.heap i)) p.heap }

module _ {K : Type 0} ⦃cmp : Comparable K⦄ where
  abbrev pub after_get : ℕ × Pool K → World K → World K
  after_get (i, p) w = record w { pool = p; found = i ∷ w.found }

  pub data Step (w : World K) : World K → Type 0 where
    find : (params : K) (now : ℕ) → Step w (after_get (get params now w.pool) w)
    start_waiting :
        (i now : ℕ)
        → 1 ≤ count i w.found
        → Step w (record w {
          found = remove_one i w.found;
          waiting = i ∷ w.waiting;
          pool = change i (enter now) w.pool;
        })
    opened :
        (i : ℕ)
        → 1 ≤ count i w.waiting
        → (w.pool.heap i).attempt ≡ connected
        → Step w (record w { waiting = remove_one i w.waiting; held = i ∷ w.held })
    -- The attempt failed, or the caller's time is over.
    gave_up :
        (i : ℕ)
        → 1 ≤ count i w.waiting
        → Step w (record w { waiting = remove_one i w.waiting; pool = change i leave w.pool })
    closed :
        (i : ℕ)
        → 1 ≤ count i w.held
        → Step w (record w { held = remove_one i w.held; pool = change i leave w.pool })
    dialled :
        (i : ℕ) (a : Attempt)
        → i < w.pool.next
        → (w.pool.heap i).attempt ≡ pending
        → Step w (record w { pool = change i (finish_attempt a) w.pool })
    check_begun :
        (params : K) (now i : ℕ) (p : Pool K)
        → begin_check params now w.pool ≡ some (i, p)
        → Step w (record w { pool = p; checking = (params, i) ∷ w.checking })
    check_passed :
        (params : K) (i : ℕ) (xs ys : Map K ℕ)
        → w.checking ≡ xs ++ (params, i) ∷ ys
        → Step w (record w { checking = xs ++ ys })
    check_failed :
        (params : K) (i : ℕ) (xs ys : Map K ℕ)
        → w.checking ≡ xs ++ (params, i) ∷ ys
        → Step w (record w { checking = xs ++ ys; pool = drop_conn params i w.pool })
    collected :
        (now : ℕ) (p : Pool K)
        → w.found ≡ []
        → w.waiting ≡ []
        → w.checking ≡ []
        → gc now w.pool ≡ some p
        → Step w (record w { pool = p })

  pub data Reach (w : World K) : World K → Type 0 where
    here : Reach w w
    next : {u v : World K} → Reach w u → Step u v → Reach w v

  abbrev pub empty_world : World K
  empty_world = record {
    pool = record { conns = []; dead_conns = []; heap = λ i. new_conn 0; next = 0 };
    found = [];
    waiting = [];
    held = [];
    checking = [];
  }
