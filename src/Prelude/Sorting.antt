-- ===== src/Prelude/Sorting.antt =====
-- Go's `sort.Strings` and `sort.Slice`, as an insertion sort by a Boolean `less`.
use mathlib.Core.Path.{◌≡◌, refl, subst}
use mathlib.Core.Logic.{◌↔◌, ◌⊎◌, inl, inr}
use mathlib.Core.Bool.{Bool, true, false}
use mathlib.Core.List.{List, [], ◌∷◌, ◌++◌, Perm}
use mathlib.Core.List.Perm
use Prim.Native.Nat.{suc}
use native.Mathlib.Omega.{arith}
use vitess_operator.Prelude.Tests.{if◌then◌else◌}
use vitess_operator.Prelude.Lists.{In, All, All-In, In-append_right, length}

-- The order laws that a `less` has to satisfy for the sorted list to be in order.
pub record IsOrder {A : Type 0} (less : A → A → Bool) : Type 0 where
  pub trans : (a b c : A) → less a b ≡ true → less b c ≡ true → less a c ≡ true
  pub asymm : (a b : A) → less a b ≡ true → less b a ≡ false
  pub antisymm : (a b : A) → less a b ≡ false → less b a ≡ false → a ≡ b

module _ {A : Type 0} (less : A → A → Bool) where
  unfoldable insert_sorted : A → List A → List A
  insert_sorted a [] = a ∷ []
  insert_sorted a (x ∷ xs) = if less x a then x ∷ insert_sorted a xs else a ∷ x ∷ xs

  unfoldable pub sort_by : List A → List A
  unfolding insert_sorted
  sort_by [] = []
  sort_by (x ∷ xs) = insert_sorted x (sort_by xs)

  -- No element stands before a smaller one.
  abbrev pub IsSorted : List A → Type 0
  IsSorted [] = Unit
  IsSorted (x ∷ xs) = All (λ y. less y x ≡ false) xs × IsSorted xs

module _ {A : Type 0} (less : A → A → Bool) where
  insert_sorted-perm : (a : A) (xs : List A) → Perm (insert_sorted less a xs) (a ∷ xs)
  unfolding insert_sorted
  insert_sorted-perm a [] = Perm.refl (a ∷ [])
  insert_sorted-perm a (x ∷ xs) = ground (
    arith,
    Perm.trans (Perm.cons x (insert_sorted-perm a xs)) (Perm.swap a x xs),
    Perm.refl (a ∷ x ∷ xs),
  )

  -- Sorting keeps every element, as often as it stands.
  pub sort_by-perm : (xs : List A) → Perm (sort_by less xs) xs
  unfolding sort_by
  sort_by-perm [] = Perm.refl []
  sort_by-perm (x ∷ xs) =
      Perm.trans (insert_sorted-perm x (sort_by less xs)) (Perm.cons x (sort_by-perm xs))

  In-insert_sorted_iff :
      (b a : A) (xs : List A) → In b (insert_sorted less a xs) ↔ ((a ≡ b) ⊎ In b xs)
  unfolding insert_sorted
  In-insert_sorted_iff b a [] = ((λ h. h), λ h. h)
  In-insert_sorted_iff b a (x ∷ xs) = ground (arith, In-insert_sorted_iff b a xs)

  pub In-sort_by_iff : (b : A) (xs : List A) → In b (sort_by less xs) ↔ In b xs
  unfolding sort_by
  In-sort_by_iff b [] = ((λ h. h), λ h. h)
  In-sort_by_iff b (x ∷ xs) =
      ground (arith, In-insert_sorted_iff b x (sort_by less xs), In-sort_by_iff b xs)

  insert_sorted-All {κ} :
      (P : A → Type κ) (a : A) (xs : List A) → P a → All P xs → All P (insert_sorted less a xs)
  unfolding insert_sorted
  insert_sorted-All P a [] p h = (p, tt)
  insert_sorted-All P a (x ∷ xs) p h = ground (arith, insert_sorted-All P a xs)

-- The laws without the last one: elements of the same rank may be different.
pub record IsWeakOrder {A : Type 0} (less : A → A → Bool) : Type 0 where
  pub asymm : (a b : A) → less a b ≡ true → less b a ≡ false
  pub false_trans : (a b c : A) → less a b ≡ false → less b c ≡ false → less a c ≡ false

pub IsOrder-IsWeakOrder : {A : Type 0} (less : A → A → Bool) → IsOrder less → IsWeakOrder less
IsOrder-IsWeakOrder less o = record {
  asymm = o.asymm;
  false_trans = λ a b c h k. ground (
    arith,
    o.trans a c b,
    o.trans a b c,
    o.asymm a c,
    o.antisymm b c,
    o.antisymm a b,
    o.trans c b a,
  );
}

module _ {A : Type 0} (less : A → A → Bool) (o : IsWeakOrder less) where
  open o use {asymm, false_trans}

  All-weaken :
      (a b : A) (xs : List A)
      → less a b ≡ false
      → All (λ y. less y a ≡ false) xs
      → All (λ y. less y b ≡ false) xs
  All-weaken a b [] h k = tt
  All-weaken a b (x ∷ xs) h k = (false_trans x a b k.0 h, All-weaken a b xs h k.1)

  insert_sorted-IsSorted :
      (a : A) (xs : List A) → IsSorted less xs → IsSorted less (insert_sorted less a xs)
  unfolding insert_sorted
  insert_sorted-IsSorted a [] h = (tt, tt)
  insert_sorted-IsSorted a (x ∷ xs) h = ground (
    arith,
    insert_sorted-IsSorted a xs,
    asymm x a,
    insert_sorted-All less (λ y. less y x ≡ false) a xs,
    All-weaken x a xs,
  )

  pub sort_by-IsSorted_weak : (xs : List A) → IsSorted less (sort_by less xs)
  unfolding sort_by
  sort_by-IsSorted_weak [] = tt
  sort_by-IsSorted_weak (x ∷ xs) =
      insert_sorted-IsSorted x (sort_by less xs) (sort_by-IsSorted_weak xs)

  -- In a sorted list, what stands before is not larger.
  pub append_ordered :
      (xs ys : List A) → IsSorted less (xs ++ ys) → (a b : A) → In a xs → In b ys → less b a ≡ false
  append_ordered [] ys h a b i j = absurd i
  append_ordered (x ∷ xs) ys h a b (inl e) j =
      subst (λ c. less b c ≡ false) e
        (All-In (λ y. less y x ≡ false) b (xs ++ ys) h.0 (In-append_right b xs ys j))
  append_ordered (x ∷ xs) ys h a b (inr i) j = append_ordered xs ys h.1 a b i j

pub sort_by-IsSorted :
    {A : Type 0} (less : A → A → Bool)
    → IsOrder less
    → (xs : List A) → IsSorted less (sort_by less xs)
sort_by-IsSorted less o = sort_by-IsSorted_weak less (IsOrder-IsWeakOrder less o)

module _ {A : Type 0} (less : A → A → Bool) where
  length-insert_sorted : (a : A) (xs : List A) → length (insert_sorted less a xs) ≡ suc (length xs)
  unfolding insert_sorted
  length-insert_sorted a [] = refl
  length-insert_sorted a (x ∷ xs) = ground (arith, length-insert_sorted a xs)

  pub length-sort_by : (xs : List A) → length (sort_by less xs) ≡ length xs
  unfolding sort_by
  length-sort_by [] = refl
  length-sort_by (x ∷ xs) =
      ground (arith, length-insert_sorted x (sort_by less xs), length-sort_by xs)
