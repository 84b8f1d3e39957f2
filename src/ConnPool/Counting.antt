-- ===== src/ConnPool/Counting.antt =====
-- How often a connection stands in a list or a map.
use vitess_operator.Prelude.{
  ◌≡◌, refl, ℕ, ◌+◌, ◌≤◌, Bool, true, false, none, some, List, [], ◌∷◌, ◌++◌, Map, lookup, insert,
  delete, UniqueKeys, Comparable, ◌==◌, nat_eq, arith, if◌then◌else◌,
}

abbrev pub one_if : Bool → ℕ
one_if true = 1
one_if false = 0

abbrev pub count : ℕ → List ℕ → ℕ
count i [] = 0
count i (x ∷ xs) = one_if (x == i) + count i xs

pub count-append : (i : ℕ) (xs ys : List ℕ) → count i (xs ++ ys) ≡ count i xs + count i ys
count-append i [] ys = omega arith
count-append i (x ∷ xs) ys = omega (arith, count-append i xs ys)

-- One occurrence less.
abbrev pub remove_one : ℕ → List ℕ → List ℕ
remove_one i [] = []
remove_one i (x ∷ xs) = if x == i then xs else x ∷ remove_one i xs

pub count-remove_one :
    (i j : ℕ) (xs : List ℕ)
    → 1 ≤ count i xs
    → count j xs ≡ one_if (i == j) + count j (remove_one i xs)
count-remove_one i j [] h = absurd (omega arith)
count-remove_one i j (x ∷ xs) h = ground (arith, count-remove_one i j xs)

module _ {K : Type 0} where
  abbrev pub count_value : ℕ → Map K ℕ → ℕ
  count_value i [] = 0
  count_value i ((k, v) ∷ m) = one_if (v == i) + count_value i m

module _ {K : Type 0} ⦃cmp : Comparable K⦄ where
  pub count_value-lookup : (k : K) (i : ℕ) (m : Map K ℕ) → lookup k m ≡ some i → 1 ≤ count_value i m
  unfolding lookup
  count_value-lookup k i [] e = cc
  count_value-lookup k i ((j, v) ∷ m) e = ground (arith, count_value-lookup k i m)

  pub count_value-insert :
      (k : K) (v i : ℕ) (m : Map K ℕ)
      → lookup k m ≡ none
      → count_value i (insert k v m) ≡ one_if (v == i) + count_value i m
  unfolding lookup insert
  count_value-insert k v i [] e = refl
  count_value-insert k v i ((j, w) ∷ m) e = ground (arith, count_value-insert k v i m)

  pub count_value-delete_none :
      (k : K) (i : ℕ) (m : Map K ℕ)
      → lookup k m ≡ none
      → count_value i (delete k m) ≡ count_value i m
  unfolding lookup delete
  count_value-delete_none k i [] e = refl
  count_value-delete_none k i ((j, w) ∷ m) e = ground (arith, count_value-delete_none k i m)

  pub count_value-delete :
      (k : K) (j i : ℕ) (m : Map K ℕ)
      → UniqueKeys m
      → lookup k m ≡ some j
      → count_value i m ≡ one_if (j == i) + count_value i (delete k m)
  unfolding lookup delete
  count_value-delete k j i [] u e = cc
  count_value-delete k j i ((l, w) ∷ m) u e =
      ground (arith, count_value-delete k j i m, count_value-delete_none k i m, cmp.same_iff l k)
