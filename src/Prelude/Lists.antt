-- ===== src/Prelude/Lists.antt =====
-- Lists measured by native numbers, and predicates on lists by recursion.
use Prim.Native.Nat.{ℕ, zero, suc, ◌+◌, ◌≤◌}
use mathlib.Core.Path.{◌≡◌, refl, ap, subst}
use mathlib.Core.Logic.{◌⊎◌, ◌↔◌, inl, inr}
use mathlib.Core.List.{List, [], ◌∷◌, ◌++◌}
use native.Mathlib.Omega.{arith}

module _ {ℓ} {A : Type ℓ} where
  abbrev pub length : List A → ℕ
  length [] = 0
  length (x ∷ xs) = suc (length xs)

  pub length-append : (xs ys : List A) → length (xs ++ ys) ≡ length xs + length ys
  length-append [] ys = omega arith
  length-append (x ∷ xs) ys = omega (arith, length-append xs ys)

  abbrev pub All {κ} : (A → Type κ) → List A → Type κ
  All P [] = Unit
  All P (x ∷ xs) = P x × All P xs

-- `x` stands in the list.
abbrev pub In : {A : Type 0} → A → List A → Type 0
In a [] = ⊥
In a (x ∷ xs) = (x ≡ a) ⊎ In a xs

pub All-In {κ} : {A : Type 0} (P : A → Type κ) (a : A) (xs : List A) → All P xs → In a xs → P a
All-In P a [] h i = elim i [ ]
All-In P a (x ∷ xs) h (inl e) = subst P e h.0
All-In P a (x ∷ xs) h (inr i) = All-In P a xs h.1 i

pub In-All {κ} : {A : Type 0} (P : A → Type κ) (xs : List A) → ((x : A) → In x xs → P x) → All P xs
In-All P [] h = tt
In-All P (x ∷ xs) h = (h x (inl refl), In-All P xs (λ y i. h y (inr i)))

pub In-append_left : {A : Type 0} (a : A) (xs ys : List A) → In a xs → In a (xs ++ ys)
In-append_left a [] ys i = absurd i
In-append_left a (x ∷ xs) ys (inl e) = inl e
In-append_left a (x ∷ xs) ys (inr i) = inr (In-append_left a xs ys i)

pub In-append_right : {A : Type 0} (a : A) (xs ys : List A) → In a ys → In a (xs ++ ys)
In-append_right a [] ys i = i
In-append_right a (x ∷ xs) ys i = inr (In-append_right a xs ys i)

module _ {A : Type 0} where
  -- `s[n:]`
  abbrev pub drop : ℕ → List A → List A
  drop zero xs = xs
  drop (suc n) [] = []
  drop (suc n) (x ∷ xs) = drop n xs

  -- `s[:n]`
  abbrev pub take : ℕ → List A → List A
  take zero xs = []
  take (suc n) [] = []
  take (suc n) (x ∷ xs) = x ∷ take n xs

  pub length-take : (n : ℕ) (xs : List A) → n ≤ length xs → length (take n xs) ≡ n
  length-take zero xs h = refl
  length-take (suc n) [] h = omega arith
  length-take (suc n) (x ∷ xs) h = ap suc (length-take n xs (omega arith))

  pub All-take : (P : A → Type 0) (n : ℕ) (xs : List A) → All P xs → All P (take n xs)
  All-take P zero xs h = tt
  All-take P (suc n) [] h = tt
  All-take P (suc n) (x ∷ xs) h = (h.0, All-take P n xs h.1)

  pub All-append : (P : A → Type 0) (xs ys : List A) → All P xs → All P ys → All P (xs ++ ys)
  All-append P [] ys h k = k
  All-append P (x ∷ xs) ys h k = (h.0, All-append P xs ys h.1 k)

  pub take-drop : (n : ℕ) (xs : List A) → take n xs ++ drop n xs ≡ xs
  take-drop zero xs = refl
  take-drop (suc n) [] = refl
  take-drop (suc n) (x ∷ xs) = ap (λ l. x ∷ l) (take-drop n xs)

  -- An element put in after at most `n` others.
  abbrev pub insert_at : ℕ → A → List A → List A
  insert_at zero x ys = x ∷ ys
  insert_at (suc n) x [] = x ∷ []
  insert_at (suc n) x (y ∷ ys) = y ∷ insert_at n x ys

  -- The answers of goroutines, one for each of a list, in the order in which they come in: the
  -- numbers say after how many later ones each stands.
  abbrev pub arrive : List ℕ → List A → List A
  arrive [] xs = xs
  arrive (n ∷ ns) [] = []
  arrive (n ∷ ns) (x ∷ xs) = insert_at n x (arrive ns xs)

  In-insert_at :
      (a : A) (n : ℕ) (x : A) (ys : List A) → In a (insert_at n x ys) ↔ ((x ≡ a) ⊎ In a ys)
  In-insert_at a zero x ys = ((λ i. i), (λ i. i))
  In-insert_at a (suc n) x [] = ((λ i. i), (λ i. i))
  In-insert_at a (suc n) x (y ∷ ys) = (
    (λ i. elim i [
      | inl e ↦ inr (inl e)
      | inr j ↦ elim ((In-insert_at a n x ys).0 j) [ inl e ↦ inl e | inr k ↦ inr (inr k) ]
    ]),
    (λ i. elim i [
      | inl e ↦ inr ((In-insert_at a n x ys).1 (inl e))
      | inr j ↦ elim j [ inl e ↦ inl e | inr k ↦ inr ((In-insert_at a n x ys).1 (inr k)) ]
    ]),
  )

  -- Every answer comes in, and no other.
  pub In-arrive : (a : A) (ns : List ℕ) (xs : List A) → In a (arrive ns xs) ↔ In a xs
  In-arrive a [] xs = ((λ i. i), (λ i. i))
  In-arrive a (n ∷ ns) [] = ((λ i. i), (λ i. i))
  In-arrive a (n ∷ ns) (x ∷ xs) = (
    (λ i. elim ((In-insert_at a n x (arrive ns xs)).0 i) [
      | inl e ↦ inl e
      | inr j ↦ inr ((In-arrive a ns xs).0 j)
    ]),
    (λ i.
        (In-insert_at a n x (arrive ns xs)).1
          (elim i [ inl e ↦ inl e | inr j ↦ inr ((In-arrive a ns xs).1 j) ])),
  )
