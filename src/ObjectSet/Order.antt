-- ===== src/ObjectSet/Order.antt =====
-- The order of the passes over the objects of a set, and the error that is kept.
use vitess_operator.Prelude.{
  ◌≡◌, refl, ◌∙◌, ap, sym, inl, inr, Bool-cases, Bool, true, false, Option, none, some, List, [],
  ◌∷◌, ◌++◌, map, ok, arith, if◌then◌else◌,
}
use vitess_operator.Reconciler.{Key}
use vitess_operator.Results.{Builder, new, error, result}
use vitess_operator.ObjectSet.{
  is_wanted, note, reconcile_keys, reconcile_leftovers, error_of, reconcile_object_set,
}

-- The keys that were listed and are not wanted.
abbrev pub leftovers : List Key → List Key → List Key
leftovers wanted [] = []
leftovers wanted (key ∷ listed) =
    if is_wanted wanted key then leftovers wanted listed else key ∷ leftovers wanted listed

abbrev pub first : {E : Type 0} → Option E → Option E → Option E
first none e = e
first (some e) _ = some e

module _ {W E : Type 0} (reconcile : Key → Bool → W → W × Option E) where
  -- Passes over single objects, one after the other, with the first error.
  abbrev pub run : List (Key × Bool) → W → W × Option E
  run [] w = (w, none)
  run ((key, wanted) ∷ calls) w =
      let (w', e) = reconcile key wanted w in let (w'', e') = run calls w' in (w'', first e e')

  fold : List (Key × Bool) → W × Builder E → W × Builder E
  fold [] s = s
  fold ((key, wanted) ∷ calls) s = fold calls (note reconcile (reconcile key wanted s.0) s.1)

  fold-keys :
      (keys : List Key) (s : W × Builder E)
      → reconcile_keys reconcile keys s.0 s.1 ≡ fold (map (λ k. (k, true)) keys) s
  unfolding reconcile_keys fold
  fold-keys [] s = refl
  fold-keys (key ∷ keys) s = fold-keys keys (note reconcile (reconcile key true s.0) s.1)

  fold-leftovers :
      (keys listed : List Key) (s : W × Builder E)
      → reconcile_leftovers reconcile keys listed s.0 s.1
        ≡ fold (map (λ k. (k, false)) (leftovers keys listed)) s
  unfolding reconcile_leftovers fold
  fold-leftovers keys [] s = refl
  fold-leftovers keys (key ∷ listed) s = elim (Bool-cases (is_wanted keys key)) [
    | inl e ↦ rw e (fold-leftovers keys listed s)
    | inr e ↦ rw e (fold-leftovers keys listed (note reconcile (reconcile key false s.0) s.1))
  ]

  fold-append :
      (xs ys : List (Key × Bool)) (s : W × Builder E) → fold (xs ++ ys) s ≡ fold ys (fold xs s)
  unfolding fold
  fold-append [] ys s = refl
  fold-append ((key, wanted) ∷ xs) ys s =
      fold-append xs ys (note reconcile (reconcile key wanted s.0) s.1)

  -- A builder holds an error, and passes it on.
  abbrev total : Builder E → W × Option E → W × Option E
  total results (w, e) = (w, first (result results).1 e)

  note-total :
      (o rest : W × Option E) (results : Builder E)
      → total (note reconcile o results).1 rest ≡ total results (rest.0, first o.1 rest.1)
  unfolding result error
  note-total (w, none) rest results = ground arith
  note-total (w, some e) rest results = ground arith

  note-world : (o : W × Option E) (results : Builder E) → (note reconcile o results).0 ≡ o.0
  note-world (w, none) results = refl
  note-world (w, some e) results = refl

  fold-run :
      (calls : List (Key × Bool)) (s : W × Builder E)
      → error_of reconcile (fold calls s) ≡ total s.1 (run calls s.0)
  unfolding fold result
  fold-run [] s = ground arith
  fold-run ((key, wanted) ∷ calls) s =
      let o = reconcile key wanted s.0 in
      fold-run calls (note reconcile o s.1)
      ∙ ap (λ w. total (note reconcile o s.1).1 (run calls w)) (note-world o s.1)
      ∙ note-total o (run calls o.0) s.1

  -- If the objects are listed, `ReconcileObjectSet` does the same as the passes over the wanted keys
  -- and then over what was listed and is not wanted, whatever errors come in between, and returns
  -- the first of their errors.
  pub reconcile_object_set-run :
      (listed keys : List Key) (w : W)
      → reconcile_object_set reconcile (ok listed) keys w
        ≡ run (map (λ k. (k, true)) keys ++ map (λ k. (k, false)) (leftovers keys listed)) w
  unfolding reconcile_object_set result
  reconcile_object_set-run listed keys w =
      let calls = map (λ k. (k, true)) keys in
      let calls' = map (λ k. (k, false)) (leftovers keys listed) in
      ap (error_of reconcile) (
        fold-leftovers keys listed (reconcile_keys reconcile keys w new)
        ∙ ap (fold calls') (fold-keys keys (w, new))
        ∙ sym (fold-append calls calls' (w, new)))
      ∙ fold-run (calls ++ calls') (w, new)
