-- ===== src/Prelude/Strings.antt =====
-- Go's order on strings: byte by byte, which is the order of the code points.
use Prim.Native.Nat.{ℕ, Ordering, compare as compare_ℕ}
use Prim.Native.Char.{code}
use Prim.Native.String.compare
use Prim.Native.String.{String, compare, then}
use mathlib.Core.Path.{◌≡◌, refl, sym, ◌∙◌}
use mathlib.Core.Bool.{Bool, true, false}
use native.Mathlib.Omega.{arith}
use text.Mathlib.TextEquality.{path_by_compare}

-- `s < t`
abbrev pub str_lt : String → String → Bool
str_lt s t = elim (compare s t) [ Ordering.lt ↦ true | _ ↦ false ]

flip : Ordering → Ordering
flip Ordering.lt = Ordering.gt
flip Ordering.eq = Ordering.eq
flip Ordering.gt = Ordering.lt

compare_flip_ℕ : (a b : ℕ) → compare_ℕ b a ≡ flip (compare_ℕ a b)
unfolding flip
compare_flip_ℕ a b = ground arith

flip-then : (o p : Ordering) → flip (then o p) ≡ then (flip o) (flip p)
unfolding flip
flip-then Ordering.lt p = refl
flip-then Ordering.eq p = refl
flip-then Ordering.gt p = refl

flip-compare : (s t : String) → compare t s ≡ flip (compare s t)
unfolding flip
flip-compare String.[] String.[] = rw compare.nil-nil
flip-compare String.[] (String.◌∷◌ d t) = rw (compare.nil-cons d t, compare.cons-nil d t)
flip-compare (String.◌∷◌ c s) String.[] = rw (compare.nil-cons c s, compare.cons-nil c s)
flip-compare (String.◌∷◌ c s) (String.◌∷◌ d t) = rw (
  compare.cons-cons c d s t,
  compare.cons-cons d c t s,
  flip-then,
  compare_flip_ℕ (code c) (code d),
  flip-compare s t,
)

-- `<` carries on through the first difference.
then_trans :
    (a b c : ℕ) (p q r : Ordering)
    → (p ≡ Ordering.lt → q ≡ Ordering.lt → r ≡ Ordering.lt)
    → then (compare_ℕ a b) p ≡ Ordering.lt
    → then (compare_ℕ b c) q ≡ Ordering.lt
    → then (compare_ℕ a c) r ≡ Ordering.lt
then_trans a b c p q r h k l = ground arith

compare_trans :
    (s t u : String)
    → compare s t ≡ Ordering.lt
    → compare t u ≡ Ordering.lt
    → compare s u ≡ Ordering.lt
compare_trans String.[] String.[] u h k = k
compare_trans String.[] (String.◌∷◌ d t) String.[] h k =
    absurd (cc (sym (compare.cons-nil d t) ∙ k))
compare_trans String.[] (String.◌∷◌ d t) (String.◌∷◌ e u) h k = rw (compare.nil-cons e u)
compare_trans (String.◌∷◌ c s) String.[] u h k = absurd (cc (sym (compare.cons-nil c s) ∙ h))
compare_trans (String.◌∷◌ c s) (String.◌∷◌ d t) String.[] h k =
    absurd (cc (sym (compare.cons-nil d t) ∙ k))
compare_trans (String.◌∷◌ c s) (String.◌∷◌ d t) (String.◌∷◌ e u) h k =
    rw (compare.cons-cons c e s u) (
      then_trans (code c) (code d) (code e) (compare s t) (compare t u) (compare s u)
        (compare_trans s t u) (sym (compare.cons-cons c d s t) ∙ h)
        (sym (compare.cons-cons d e t u) ∙ k))

pub str_lt_trans : (s t u : String) → str_lt s t ≡ true → str_lt t u ≡ true → str_lt s u ≡ true
str_lt_trans s t u h k = ground (arith, compare_trans s t u)

pub str_lt_asymm : (s t : String) → str_lt s t ≡ true → str_lt t s ≡ false
unfolding flip
str_lt_asymm s t h = ground (arith, flip-compare s t)

-- Two strings that neither way stand in order are the same.
pub str_lt_antisymm : (s t : String) → str_lt s t ≡ false → str_lt t s ≡ false → s ≡ t
unfolding flip
str_lt_antisymm s t h k = ground (arith, flip-compare s t, path_by_compare s t)

pub str_lt_irrefl : (s : String) → str_lt s s ≡ false
str_lt_irrefl s = ground (arith, str_lt_asymm s s)
