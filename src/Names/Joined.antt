-- ===== src/Names/Joined.antt =====
-- What Kubernetes asks of a name, and what makes it unique.
use vitess_operator.Prelude.{
  ◌≡◌, refl, inl, inr, sym, subst, ap, ℕ, zero, suc, ◌+◌, ◌-◌, ◌≤◌, true, ◌||◌, some, List, [], ◌∷◌,
  ◌++◌, map, leb, nat_beq, length, take, length-append, length-take, All, All-take, All-append,
  arith, Bool-cases,
}
use vitess_operator.Names.{
  Text, dash, letter_x, truncation_mark, hash_length, min_truncated_length, Constraints,
  is_lowercase_alphanumeric, transform, join, starts_well, fix_first, append_hash,
  join_salt_with_constraints,
}

-- A lowercase letter, a digit or '-'.
abbrev pub IsNameChar : ℕ → Type 0
IsNameChar r = (is_lowercase_alphanumeric r || nat_beq r dash) ≡ true

transform-IsNameChar : (r : ℕ) → IsNameChar (transform r)
unfolding transform
transform-IsNameChar r = ground arith

transformed : (part : Text) → All IsNameChar (map transform part)
transformed [] = tt
transformed (r ∷ part) = (transform-IsNameChar r, transformed part)

All-transformed : (parts : List Text) → All (All IsNameChar) (map (map transform) parts)
All-transformed [] = tt
All-transformed (part ∷ parts) = (transformed part, All-transformed parts)

join-IsNameChar : (parts : List Text) → All (All IsNameChar) parts → All IsNameChar (join parts)
unfolding join
join-IsNameChar [] h = tt
join-IsNameChar (part ∷ []) h = h.0
join-IsNameChar (part ∷ next ∷ parts) h =
    All-append IsNameChar part (dash ∷ join (next ∷ parts)) h.0
      (refl, join-IsNameChar (next ∷ parts) h.1)

-- The name starts as the constraints ask.
abbrev StartsWell : Constraints → Text → Type 0
StartsWell cons name = starts_well cons name ≡ true

StartsWell-append : (cons : Constraints) (s t : Text) → StartsWell cons s → StartsWell cons (s ++ t)
StartsWell-append cons [] t h = cc
StartsWell-append cons (c ∷ s) t h = h

StartsWell-join :
    (cons : Constraints) (part : Text) (parts : List Text)
    → StartsWell cons part
    → StartsWell cons (join (part ∷ parts))
unfolding join
StartsWell-join cons part [] h = h
StartsWell-join cons part (next ∷ parts) h =
    StartsWell-append cons part (dash ∷ join (next ∷ parts)) h

StartsWell-take :
    (cons : Constraints) (n : ℕ) (s : Text) → 1 ≤ n → StartsWell cons s → StartsWell cons (take n s)
StartsWell-take cons zero s h k = absurd (omega arith)
StartsWell-take cons (suc n) [] h k = k
StartsWell-take cons (suc n) (c ∷ s) h k = k

module _ (cons : Constraints) (x_ok : cons.valid_first_char letter_x ≡ true) where
  StartsWell-fix_first :
      (part : Text) (parts : List Text) → StartsWell cons (join (fix_first cons (part ∷ parts)))
  unfolding fix_first
  StartsWell-fix_first part parts = elim (Bool-cases (starts_well cons part)) [
    | inl e ↦
        subst (λ ps. StartsWell cons (join ps)) (rw e refl) (StartsWell-join cons part parts e)
    | inr e ↦
        subst (λ ps. StartsWell cons (join ps)) (rw e refl)
          (StartsWell-join cons (letter_x ∷ part) parts x_ok)
  ]

  fix_first-IsNameChar :
      (parts : List Text) → All (All IsNameChar) parts → All (All IsNameChar) (fix_first cons parts)
  unfolding fix_first
  fix_first-IsNameChar [] h = tt
  fix_first-IsNameChar (part ∷ parts) h = elim (Bool-cases (starts_well cons part)) [
    | inl e ↦ rw e h
    | inr e ↦ rw e ((refl, h.0), h.1)
  ]

-- Kubernetes accepts the name, and it ends with the hash.
pub record IsName (cons : Constraints) (hash name : Text) : Type 0 where
  pub fits : length name ≤ cons.max_length
  pub chars : All IsNameChar name
  pub starts : StartsWell cons name
  pub hashed : (front : Text) × (name ≡ front ++ dash ∷ hash)

append_assoc : (a b c : Text) → (a ++ b) ++ c ≡ a ++ (b ++ c)
append_assoc [] b c = refl
append_assoc (x ∷ a) b c = ap (λ t. x ∷ t) (append_assoc a b c)

append_hash-IsName :
    (cons : Constraints) (s hash : Text)
    → min_truncated_length ≤ cons.max_length
    → length hash ≡ hash_length
    → All IsNameChar s
    → All IsNameChar hash
    → StartsWell cons s
    → (name : Text) × (append_hash cons s hash ≡ some name) × IsName cons hash name
unfolding append_hash
append_hash-IsName cons s hash room eight fine fine_hash starts =
    let predicted = length s + 1 + length hash in
    elim (Bool-cases (leb predicted cons.max_length)) [
      | inl e ↦ (
        s ++ dash ∷ hash,
        rw e refl,
        record {
          fits = ground (arith, length-append s (dash ∷ hash));
          chars = All-append IsNameChar s (dash ∷ hash) fine (refl, fine_hash);
          starts = StartsWell-append cons s (dash ∷ hash) starts;
          hashed = (s, refl);
        },
      )
      | inr e ↦
          let cut = predicted - cons.max_length + 2 in
          let kept = take (length s - cut) s in
          let enough : leb cut (length s) ≡ true = ground arith in
          (
            kept ++ (truncation_mark ++ hash),
            rw (e, enough) refl,
            record {
              fits = ground (
                arith,
                length-append kept (truncation_mark ++ hash),
                length-take (length s - cut) s,
              );
              chars =
                  All-append IsNameChar kept (truncation_mark ++ hash)
                    (All-take IsNameChar (length s - cut) s fine) (refl, (refl, (refl, fine_hash)));
              starts =
                  StartsWell-append cons kept (truncation_mark ++ hash)
                    (StartsWell-take cons (length s - cut) s (ground arith) starts);
              hashed = (
                kept ++ (dash ∷ dash ∷ []),
                sym (append_assoc kept (dash ∷ dash ∷ []) (dash ∷ hash)),
              );
            },
          )
    ]

-- If the hash has 8 characters that names may have, the limit is at least 12, and 'x' may come
-- first: for any parts but none `JoinSaltWithConstraints` does not panic, and its name is not longer
-- than the limit, has only lowercase letters, digits and '-', starts with a valid character, and
-- ends with '-' and the hash of salt and parts.
pub join_salt_with_constraints-IsName :
    (hash : List Text → Text) (cons : Constraints) (salt : List Text) (part : Text)
    (parts : List Text)
    → ((ps : List Text) → (length (hash ps) ≡ hash_length) × All IsNameChar (hash ps))
    → min_truncated_length ≤ cons.max_length
    → cons.valid_first_char letter_x ≡ true
    → (name : Text) × (join_salt_with_constraints hash cons salt (part ∷ parts) ≡ some name)
      × IsName cons (hash (salt ++ part ∷ parts)) name
unfolding join_salt_with_constraints
join_salt_with_constraints-IsName hash cons salt part parts hex room x_ok =
    let fixed = fix_first cons (map (map transform) (part ∷ parts)) in
    let sum = hash (salt ++ part ∷ parts) in
    let (name, e, is_name) =
      append_hash-IsName cons (join fixed) sum room (hex (salt ++ part ∷ parts)).0
        (join-IsNameChar fixed (
          fix_first-IsNameChar cons x_ok (map (map transform) (part ∷ parts))
            (All-transformed (part ∷ parts))))
        (hex (salt ++ part ∷ parts)).1
        (StartsWell-fix_first cons x_ok (map transform part) (map (map transform) parts)) in
    (name, ground arith, is_name)
