-- ===== src/ShardRollout/Outcome.antt =====
-- A whole rollout pass: it returns, makes one change at most, and only on a shard that is ready.
use vitess_operator.Prelude.{
  ◌≡◌, refl, inl, inr, sym, subst, ap, ◌≤◌, String, Bool, true, false, Option, none, some, List, [],
  ◌∷◌, Map, ok, lookup, or_zero, All, arith, eq_iff, string_eq, Bool-cases, Option-cases, is_some,
  length, Answer-cases,
}
use vitess_operator.Rollout
use vitess_operator.Results.{Builder, new, error}
use vitess_operator.ShardDrain.{Pod, index_pods, condition_true}
use vitess_operator.ShardRollout.{
  Env, Action, deleted, released, uncascaded, Pick, panicked, nothing, picked,
  get_next_scheduled_tablet, tablet_aliases, may_release, is_lone_master, release_tablet_pod,
  uncascade_shard, act_on, release_next, noted, reconcile_rollout,
}
use vitess_operator.ShardRollout.OneByOne.{
  HasPods, IsVisit, IsNextRelease, get_next_scheduled_tablet-IsNextRelease,
}

module _ {E : Type 0} (env : Env E) where
  -- The tablet is available, and has a Pod that is not released.
  abbrev IsReady : Map String Pod → String → Type 0
  IsReady pods k =
      (or_zero "" (lookup k env.available) ≡ condition_true)
      × ((pod : Pod) × (lookup k pods ≡ some pod) × (Rollout.released pod.meta ≡ false))

  may_release-IsReady :
      (pods : Map String Pod) (ks : List String)
      → may_release env pods ks ≡ true
      → All (IsReady pods) ks
  unfolding may_release
  may_release-IsReady pods [] e = tt
  may_release-IsReady pods (k ∷ ks) e = elim (Option-cases (lookup k pods)) [
    | inl n ↦ absurd (ground arith)
    | inr (pod, found) ↦ (
      (
        ground (arith, eq_iff (or_zero "" (lookup k env.available)) condition_true),
        (pod, found, ground arith),
      ),
      may_release-IsReady pods ks (ground arith),
    )
  ]

  IsReady-HasPods :
      (pods : Map String Pod) (ks : List String) → All (IsReady pods) ks → HasPods pods ks
  IsReady-HasPods pods [] h = tt
  IsReady-HasPods pods (k ∷ ks) h =
      let ((available, (pod, found, waits)), rest) = h in
      (ap is_some found, IsReady-HasPods pods ks rest)

  -- The change is the one that is due.
  abbrev IsDue : Map String Pod → String → Action → Type 0
  IsDue pods primary_alias (deleted key pod) =
      (is_lone_master env pod ≡ true)
      × IsNextRelease pods primary_alias (tablet_aliases env.available) (picked key pod)
  IsDue pods primary_alias (released key pod') =
      (pod : Pod) × (pod' ≡ record pod { meta = Rollout.release pod.meta })
      × (is_lone_master env pod ≡ false)
      × IsNextRelease pods primary_alias (tablet_aliases env.available) (picked key pod)
  IsDue pods primary_alias (uncascaded shard) =
      (shard ≡ Rollout.uncascade env.shard)
      × IsNextRelease pods primary_alias (tablet_aliases env.available) nothing

  abbrev pub IsRelease : Action → Type 0
  IsRelease action =
      (pod_list : List Pod) × (primary_alias : String) × (env.list_pods ≡ ok pod_list)
      × (env.primary_alias ≡ ok primary_alias)
      × (Rollout.cascading env.shard ≡ true)
      × All (IsReady (index_pods pod_list [])) (tablet_aliases env.available)
      × IsDue (index_pods pod_list []) primary_alias action

  -- No panic, and at most one change.
  abbrev pub IsOutcome : (Action → Type 0) → Option (List Action × Builder E) → Type 0
  IsOutcome Q none = ⊥
  IsOutcome Q (some (actions, results)) = (length actions ≤ 1) × All Q actions

  noted-IsOutcome :
      (Q : Action → Type 0) (action : Action) (answer : Option E)
      → Q action
      → IsOutcome Q (some (noted env (action ∷ []) answer))
  noted-IsOutcome Q action none q = (omega arith, (q, tt))
  noted-IsOutcome Q action (some e) q = (omega arith, (q, tt))

  released-IsOutcome :
      (pods : Map String Pod) (primary_alias key : String) (pod : Pod) (Q : Action → Type 0)
      → ((action : Action) → IsDue pods primary_alias action → Q action)
      → IsNextRelease pods primary_alias (tablet_aliases env.available) (picked key pod)
      → (lone : Bool) → is_lone_master env pod ≡ lone
      → IsOutcome Q (some (release_tablet_pod env key pod lone))
  unfolding release_tablet_pod
  released-IsOutcome pods primary_alias key pod Q q next true e =
      noted-IsOutcome Q (deleted key pod) (env.delete pod) (q (deleted key pod) (e, next))
  released-IsOutcome pods primary_alias key pod Q q next false e =
      let pod' = record pod { meta = Rollout.release pod.meta } in
      noted-IsOutcome Q (released key pod') (env.update pod')
        (q (released key pod') (pod, refl, e, next))

  act_on-IsOutcome :
      (pods : Map String Pod) (primary_alias : String) (Q : Action → Type 0) (p : Pick)
      → ((action : Action) → IsDue pods primary_alias action → Q action)
      → IsNextRelease pods primary_alias (tablet_aliases env.available) p
      → IsOutcome Q (act_on env p)
  unfolding act_on uncascade_shard
  act_on-IsOutcome pods primary_alias Q panicked q next = absurd next
  act_on-IsOutcome pods primary_alias Q nothing q next =
      let shard = Rollout.uncascade env.shard in
      noted-IsOutcome Q (uncascaded shard) (env.update_shard shard)
        (q (uncascaded shard) (refl, next))
  act_on-IsOutcome pods primary_alias Q (picked key pod) q next =
      released-IsOutcome pods primary_alias key pod Q q next (is_lone_master env pod) refl

  kept :
      (Q : Action → Type 0) (o o' : Option (List Action × Builder E))
      → o ≡ o'
      → IsOutcome Q o'
      → IsOutcome Q o
  kept Q o o' e h = subst (IsOutcome Q) (sym e) h

  idle-IsOutcome : (Q : Action → Type 0) (results : Builder E) → IsOutcome Q (some ([], results))
  idle-IsOutcome Q results = (omega arith, tt)

  release_next-IsOutcome :
      IsVisit env.visit
      → Rollout.cascading env.shard ≡ true
      → (pod_list : List Pod) → env.list_pods ≡ ok pod_list
      → IsOutcome IsRelease
          (release_next env (index_pods pod_list []) (tablet_aliases env.available))
  release_next-IsOutcome visits on pod_list lists =
      let pods = index_pods pod_list [] in
      let ks = tablet_aliases env.available in
      elim (Bool-cases (may_release env pods ks)) [
        | inr waits ↦
            kept IsRelease (release_next env pods ks) (some ([], new)) (ground arith)
              (idle-IsOutcome IsRelease new)
        | inl goes ↦ elim (Answer-cases env.primary_alias) [
          | inr (e, fails) ↦
              kept IsRelease (release_next env pods ks) (some ([], error e new)) (ground arith)
                (idle-IsOutcome IsRelease (error e new))
          | inl (primary_alias, known) ↦
              let ready = may_release-IsReady pods ks goes in
              kept IsRelease (release_next env pods ks)
                (act_on env (get_next_scheduled_tablet env.visit ks pods primary_alias))
                (ground arith)
                (act_on-IsOutcome pods primary_alias IsRelease _
                  (λ action due. (pod_list, primary_alias, lists, known, on, ready, due))
                  (get_next_scheduled_tablet-IsNextRelease pods primary_alias ks env.visit visits
                    (IsReady-HasPods pods ks ready)))
        ]
      ]

  -- `reconcileRollout` does not panic, whatever the order in which it meets the scheduled tablets,
  -- and changes at most one object: it does so only on a cascading shard whose tablets are all
  -- available, with Pods of which none is released. It releases a scheduled tablet: a drained one if
  -- there is one, and the primary only if it is drained or the only one. It deletes the Pod instead
  -- exactly if its tablet is the only one that can be the primary. The cascade ends only when no
  -- tablet is scheduled.
  pub reconcile_rollout-IsOutcome : IsVisit env.visit → IsOutcome IsRelease (reconcile_rollout env)
  unfolding reconcile_rollout
  reconcile_rollout-IsOutcome visits = elim (Bool-cases (Rollout.cascading env.shard)) [
    | inr off ↦
        kept IsRelease (reconcile_rollout env) (some ([], new)) (ground arith)
          (idle-IsOutcome IsRelease new)
    | inl on ↦ elim (Answer-cases env.list_pods) [
      | inr (e, fails) ↦
          kept IsRelease (reconcile_rollout env) (some ([], error e new)) (ground arith)
            (idle-IsOutcome IsRelease (error e new))
      | inl (pod_list, lists) ↦
          kept IsRelease (reconcile_rollout env)
            (release_next env (index_pods pod_list []) (tablet_aliases env.available))
            (ground arith) (release_next-IsOutcome visits on pod_list lists)
    ]
  ]
