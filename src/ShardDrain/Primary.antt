-- ===== src/ShardDrain/Primary.antt =====
-- A drain pass does not mark the primary as finished.
use vitess_operator.Prelude.{
  ◌≡◌, inl, inr, sym, subst, String, Bool, true, false, ◌&&◌, not, Option, none, some, List, [],
  ◌∷◌, ◌++◌, Map, Answer, ok, err, lookup, insert, All, All-append, arith, string_eq, Bool-cases,
  Answer-cases, if◌then◌else◌,
}
use vitess_operator.Drain.{State, state_transitions}
use vitess_operator.ShardDrain.Inputs.{Pod, Tablet, Env, Action}
use vitess_operator.ShardDrain.Status.{is_shard_healthy}
use vitess_operator.ShardDrain.Choice.{candidate_primary}
use vitess_operator.ShardDrain.Writable.{All-insert}
use vitess_operator.ShardDrain.Loops.{
  Progress, index_pods, load_drains, apply_transitions, shut_down_slowly, and_then, current_image,
  spare_after, disable_fast_shutdown, reparent, settle_primary, requeue_later, finished_in,
  after_shutdown, advance_drains, is_empty, after_load, idle, drain_tablets, reconcile_drain,
}
use vitess_operator.ShardDrain.Opening.{
  IsSafe, IsOpenAt, Inv, After, load_drains-Inv, apply_transitions-Inv,
}

module _ {P E : Type 0} (env : Env P E) (primary : String) where
  shut_down_slowly-IsSafe :
      (answer : Answer Bool E) (tablet : Tablet)
      → All (IsSafe primary) (shut_down_slowly env answer tablet).0
  shut_down_slowly-IsSafe (err e) tablet = tt
  shut_down_slowly-IsSafe (ok false) tablet = tt
  shut_down_slowly-IsSafe (ok true) tablet = (tt, tt)

  and_then-IsSafe :
      (r rest : List Action × Option E)
      → All (IsSafe primary) r.0
      → All (IsSafe primary) rest.0
      → All (IsSafe primary) (and_then env r rest).0
  and_then-IsSafe (actions, some e) rest h k = h
  and_then-IsSafe (actions, none) (more, e) h k = All-append (IsSafe primary) actions more h k

  disable_fast_shutdown-IsSafe :
      (pods : Map String Pod) (tablets : Map String Tablet)
      → All (IsSafe primary) (disable_fast_shutdown env pods tablets).0
  unfolding disable_fast_shutdown
  disable_fast_shutdown-IsSafe [] tablets = tt
  disable_fast_shutdown-IsSafe ((alias, pod) ∷ pods) tablets =
      of_tablet (lookup alias tablets) (disable_fast_shutdown env pods tablets)
        (disable_fast_shutdown-IsSafe pods tablets)
    where
      of_tablet :
          (o : Option Tablet) (rest : List Action × Option E)
          → All (IsSafe primary) rest.0
          → All
              (IsSafe primary)
              (elim o as (λ x. List Action × Option E) [
                | none ↦ rest
                | some tablet ↦
                    and_then env
                      (shut_down_slowly env
                        (env.safe_upgrade (current_image env pod.containers) env.desired_image)
                        tablet)
                      rest
              ]).0
      of_tablet none rest h = h
      of_tablet (some tablet) rest h =
          and_then-IsSafe
            (shut_down_slowly env
              (env.safe_upgrade (current_image env pod.containers) env.desired_image) tablet)
            rest (shut_down_slowly-IsSafe _ tablet) h

  spare_after-IsSafe : (o : Option E) (old : String) → All (IsSafe primary) (spare_after env o old)
  spare_after-IsSafe none old = (tt, tt)
  spare_after-IsSafe (some e) old = tt

  reparent-IsSafe : (new : Tablet) → All (IsSafe primary) (reparent env primary new)
  unfolding reparent
  reparent-IsSafe new = ground (arith, spare_after-IsSafe (env.externally_reparented new) primary)

  settle_primary-IsSafe :
      (tablets : Map String Tablet) (transitions : Map String State) (p : Progress E)
      → All (IsSafe primary) p.actions
      → All (IsSafe primary) (settle_primary env primary tablets transitions p).actions
  unfolding settle_primary
  settle_primary-IsSafe tablets transitions p h =
      of_choice (candidate_primary env primary p.pods tablets)
    where
      of_choice :
          (o : Option Tablet)
          → All
              (IsSafe primary)
              (if p.acknowledged && not (finished_in primary p.drains)
                then p
                else if not (finished_in primary p.drains) && not (finished_in primary transitions)
                then p
                else elim o as (λ x. Progress E) [
                  | none ↦ requeue_later env p
                  | some new ↦ record p { actions = p.actions ++ reparent env primary new }
                ]).actions
      of_choice none = ground (arith, h)
      of_choice (some new) = ground (
        arith,
        h,
        All-append (IsSafe primary) p.actions (reparent env primary new) h (reparent-IsSafe new),
      )

  after_shutdown-IsSafe :
      (tablets : Map String Tablet) (transitions : Map String State) (p : Progress E)
      (r : List Action × Option E)
      → All (IsSafe primary) p.actions
      → All (IsSafe primary) r.0
      → All (IsSafe primary) (after_shutdown env primary tablets transitions p r).actions
  after_shutdown-IsSafe tablets transitions p (actions, none) h k =
      settle_primary-IsSafe tablets transitions (record p { actions = p.actions ++ actions })
        (All-append (IsSafe primary) p.actions actions h k)
  after_shutdown-IsSafe tablets transitions p (actions, some e) h k =
      All-append (IsSafe primary) p.actions actions h k

  -- All writes of a pass that has returned are safe.
  abbrev pub IsSafePass : Option (Progress E) → Type 0
  IsSafePass none = Unit
  IsSafePass (some p) = All (IsSafe primary) p.actions

  advance_drains-IsSafePass :
      (tablets : Map String Tablet) (p : Progress E)
      → Inv env primary p
      → IsSafePass (advance_drains env primary tablets p)
  unfolding advance_drains
  advance_drains-IsSafePass tablets p i =
      of_applied (apply_transitions env primary (state_transitions p.drains) p)
        (apply_transitions-Inv env primary (state_transitions p.drains) p i)
    where
      of_applied :
          (r : Option (Progress E))
          → After env primary r
          → IsSafePass (elim r [
            | none ↦ none
            | some p' ↦ some (
                after_shutdown env primary tablets
                  (state_transitions p.drains)
                  p'
                  (disable_fast_shutdown env p'.pods tablets))
          ])
      of_applied none h = tt
      of_applied (some p') h =
          after_shutdown-IsSafe tablets (state_transitions p.drains) p'
            (disable_fast_shutdown env p'.pods tablets) h.1
            (disable_fast_shutdown-IsSafe p'.pods tablets)

  after_load-IsSafePass :
      (tablets : Map String Tablet) (p : Progress E)
      → Inv env primary p
      → IsSafePass (after_load env primary tablets p)
  after_load-IsSafePass tablets p i = elim (Bool-cases (is_empty env p.drains)) [
    | inl e ↦ rw e i.1
    | inr e ↦ elim (Bool-cases p.aborting) [
      | inl a ↦ rw (e, a) i.1
      | inr a ↦
          let go : after_load env primary tablets p ≡ advance_drains env primary tablets p =
            ground arith in
          subst IsSafePass (sym go) (advance_drains-IsSafePass tablets p i)
    ]
  ]

  drain_tablets-IsSafePass :
      (pods : Map String Pod) (tablets : Map String Tablet)
      → All (IsOpenAt primary) pods
      → IsSafePass (drain_tablets env primary pods tablets)
  unfolding drain_tablets
  drain_tablets-IsSafePass pods tablets h =
      of_loaded (load_drains env pods (idle env pods))
        (load_drains-Inv env primary pods (idle env pods) h (h, tt))
    where
      of_loaded :
          (r : Option (Progress E))
          → After env primary r
          → IsSafePass (elim r [ none ↦ none | some p ↦ after_load env primary tablets p ])
      of_loaded none i = tt
      of_loaded (some p) i = after_load-IsSafePass tablets p i

  index_pods-IsOpenAt :
      (pod_list : List Pod) (m : Map String Pod)
      → All (λ pod. IsOpenAt primary (pod.alias, pod)) pod_list
      → All (IsOpenAt primary) m
      → All (IsOpenAt primary) (index_pods pod_list m)
  unfolding index_pods
  index_pods-IsOpenAt [] m h k = k
  index_pods-IsOpenAt (pod ∷ pod_list) m h k =
      index_pods-IsOpenAt pod_list (insert pod.alias pod m) h.1
        (All-insert (IsOpenAt primary) pod.alias pod m h.0 k)

  -- If the Pod of the shard's primary is not finished when `reconcileDrain` reads it, no write of the
  -- pass marks it as finished, whatever the states of the other Pods are.
  pub reconcile_drain-IsSafePass :
      (pod_list : List Pod)
      → env.list_pods ≡ ok pod_list
      → env.get_shard ≡ ok (some primary)
      → All (λ pod. IsOpenAt primary (pod.alias, pod)) pod_list
      → IsSafePass (reconcile_drain env)
  unfolding reconcile_drain
  reconcile_drain-IsSafePass pod_list lists shard h =
      let pods = index_pods pod_list [] in
      elim (Answer-cases env.get_tablets) [
        | inr (x, e) ↦
            let stop : reconcile_drain env ≡ some (requeue_later env (idle env [])) =
              ground arith in
            subst IsSafePass (sym stop) tt
        | inl (tablets, e) ↦ elim (Bool-cases (is_shard_healthy env.available)) [
          | inr u ↦
              let stop : reconcile_drain env ≡ some (idle env pods) = ground arith in
              subst IsSafePass (sym stop) tt
          | inl u ↦
              let go : reconcile_drain env ≡ drain_tablets env primary pods tablets =
                ground arith in
              subst IsSafePass (sym go)
                (drain_tablets-IsSafePass pods tablets (index_pods-IsOpenAt pod_list [] h tt))
        ]
      ]
