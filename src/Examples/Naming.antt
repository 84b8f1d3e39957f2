-- ===== src/Examples/Naming.antt =====
-- pkg/operator/names at a concrete input: a name that is cut.
use vitess_operator.Prelude.{◌≡◌, refl, some, List, [], ◌∷◌, length, arith, All}
use vitess_operator.Names.{
  Text, Constraints, hash_length, is_lowercase_letter, join_salt_with_constraints,
}
use vitess_operator.Names.Joined.{IsNameChar, IsName, join_salt_with_constraints-IsName}

abbrev eight_zeros : List Text → Text
eight_zeros parts = 48 ∷ 48 ∷ 48 ∷ 48 ∷ 48 ∷ 48 ∷ 48 ∷ 48 ∷ []

abbrev short : Constraints
short = record { max_length = 14; valid_first_char = is_lowercase_letter }

hex :
    (parts : List Text)
    → (length (eight_zeros parts) ≡ hash_length) × All IsNameChar (eight_zeros parts)
hex parts = (refl, (refl, (refl, (refl, (refl, (refl, (refl, (refl, (refl, tt)))))))))

-- The parts "1A.b" and "cd".
join_salt_with_constraints-IsName_example :
    (name : Text) × (join_salt_with_constraints eight_zeros short []
        ((49 ∷ 65 ∷ 46 ∷ 98 ∷ []) ∷ (99 ∷ 100 ∷ []) ∷ [])
      ≡ some name)
    × IsName short (eight_zeros ((49 ∷ 65 ∷ 46 ∷ 98 ∷ []) ∷ (99 ∷ 100 ∷ []) ∷ [])) name
join_salt_with_constraints-IsName_example =
    join_salt_with_constraints-IsName eight_zeros short [] (49 ∷ 65 ∷ 46 ∷ 98 ∷ [])
      ((99 ∷ 100 ∷ []) ∷ []) hex (omega arith) refl
