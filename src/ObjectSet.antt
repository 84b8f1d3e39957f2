-- ===== src/ObjectSet.antt =====
-- pkg/operator/reconciler/object_set.go: one pass over a set of objects.
--
-- `reconcile` is `ReconcileObject` with the owner, labels and strategy of the set: it takes a key,
-- whether the object is wanted, and the world that its calls change. The answer of the listing, with
-- the errors before it, is an argument.
pub mod Order
use vitess_operator.Prelude.{
  Bool, true, false, ◌&&◌, ◌||◌, not, Option, none, some, List, [], ◌∷◌, Answer, ok, err,
  if◌then◌else◌, string_eq, ◌==◌,
}
use vitess_operator.Reconciler.{Key}
use vitess_operator.Results.{Result, Builder, new, error, result}

abbrev pub same_key : Key → Key → Bool
same_key a b = a.namespace == b.namespace && a.name == b.name

-- `wanted[key]`, when the first loop is over.
abbrev pub is_wanted : List Key → Key → Bool
is_wanted [] key = false
is_wanted (k ∷ keys) key = same_key k key || is_wanted keys key

module _ {W E : Type 0} (reconcile : Key → Bool → W → W × Option E) where
  abbrev pub note : W × Option E → Builder E → W × Builder E
  note (w, none) results = (w, results)
  note (w, some e) results = (w, error e results)

  -- The first loop: all errors but the first are forgotten, and no error stops it.
  unfoldable pub reconcile_keys : List Key → W → Builder E → W × Builder E
  reconcile_keys [] w results = (w, results)
  reconcile_keys (key ∷ keys) w results =
      let (w', results') = note (reconcile key true w) results in reconcile_keys keys w' results'

  -- The second loop, over what was listed.
  unfoldable pub reconcile_leftovers : List Key → List Key → W → Builder E → W × Builder E
  reconcile_leftovers wanted [] w results = (w, results)
  reconcile_leftovers wanted (key ∷ listed) w results =
      let (w', results') =
        if is_wanted wanted key then (w, results) else note (reconcile key false w) results in
      reconcile_leftovers wanted listed w' results'

  abbrev pub error_of : W × Builder E → W × Option E
  error_of (w, results) = (w, (result results).1)

  unfoldable pub reconcile_object_set : Answer (List Key) E → List Key → W → W × Option E
  unfolding reconcile_keys reconcile_leftovers
  reconcile_object_set (err e) keys w = (w, some e)
  reconcile_object_set (ok listed) keys w =
      let (w', results) = reconcile_keys keys w new in
      error_of (reconcile_leftovers keys listed w' results)
