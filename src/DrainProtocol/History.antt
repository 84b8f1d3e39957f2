-- ===== src/DrainProtocol/History.antt =====
-- What holds of the cache now, and after each of the changes that it is still to see.
use vitess_operator.Prelude.{◌≡◌, refl, ℕ, ◌≤◌, String, List, [], ◌∷◌, ◌++◌}
use native.Mathlib.Nat.{le_refl, le_trans}
use vitess_operator.Meta.{ObjectMeta}
use vitess_operator.DrainProtocol.{Pods, set}

abbrev Queue : Type 0
Queue = List (String × ObjectMeta)

abbrev apply : String × ObjectMeta → Pods → Pods
apply (n, m) pods = set n m pods

abbrev pub replay : Pods → Queue → Pods
replay pods [] = pods
replay pods (e ∷ q) = replay (apply e pods) q

abbrev pub Along {ℓ} : (Pods → Type ℓ) → Pods → Queue → Type ℓ
Along P pods [] = P pods
Along P pods (e ∷ q) = P pods × Along P (apply e pods) q

pub replay-push :
    (pods : Pods) (q : Queue) (e : String × ObjectMeta)
    → replay pods (q ++ e ∷ []) ≡ apply e (replay pods q)
replay-push pods [] e = refl
replay-push pods (d ∷ q) e = replay-push (apply d pods) q e

pub Along-push {ℓ} :
    (P : Pods → Type ℓ) (pods : Pods) (q : Queue) (e : String × ObjectMeta)
    → Along P pods q
    → P (apply e (replay pods q))
    → Along P pods (q ++ e ∷ [])
Along-push P pods [] e h k = (h, k)
Along-push P pods (d ∷ q) e h k = (h.0, Along-push P (apply d pods) q e h.1 k)

pub Along-head {ℓ} : (P : Pods → Type ℓ) (pods : Pods) (q : Queue) → Along P pods q → P pods
Along-head P pods [] h = h
Along-head P pods (e ∷ q) h = h.0

pub Along-map {ℓ κ} :
    (P : Pods → Type ℓ) (Q : Pods → Type κ)
    → ((pods : Pods) → P pods → Q pods)
    → (pods : Pods) (q : Queue) → Along P pods q
    → Along Q pods q
Along-map P Q f pods [] h = f pods h
Along-map P Q f pods (e ∷ q) h = (f pods h.0, Along-map P Q f (apply e pods) q h.1)

module _ (f : Pods → ℕ) where
  -- The number never falls from one change to the next.
  abbrev pub Rising : Pods → Queue → Type 0
  Rising pods [] = Unit
  Rising pods (e ∷ q) = (f pods ≤ f (apply e pods)) × Rising (apply e pods) q

  pub Rising-push :
      (pods : Pods) (q : Queue) (e : String × ObjectMeta)
      → Rising pods q
      → f (replay pods q) ≤ f (apply e (replay pods q))
      → Rising pods (q ++ e ∷ [])
  Rising-push pods [] e h k = (k, tt)
  Rising-push pods (d ∷ q) e h k = (h.0, Rising-push (apply d pods) q e h.1 k)

  pub Rising-le : (pods : Pods) (q : Queue) → Rising pods q → f pods ≤ f (replay pods q)
  Rising-le pods [] h = le_refl (f pods)
  Rising-le pods (e ∷ q) h = le_trans h.0 (Rising-le (apply e pods) q h.1)

  -- So every value on the way is at most the last one.
  pub Rising-Along :
      (pods : Pods) (q : Queue) → Rising pods q → Along (λ t. f t ≤ f (replay pods q)) pods q
  Rising-Along pods [] h = le_refl (f pods)
  Rising-Along pods (e ∷ q) h = (Rising-le pods (e ∷ q) h, Rising-Along (apply e pods) q h.1)
