-- ===== src/Names.antt =====
-- pkg/operator/names: names of objects that are unique, and that Kubernetes accepts.
--
-- A string is the list of its code points, as `range` decodes them. `Hash`, the first bytes of an
-- MD5 sum in hexadecimal, is the argument `hash`. `MaxLength` is not negative.
pub mod Joined
use vitess_operator.Prelude.{
  ℕ, ◌+◌, ◌-◌, ◌*◌, Bool, true, false, ◌&&◌, ◌||◌, not, Option, none, some, List, [], ◌∷◌, ◌++◌,
  map, ltb, leb, nat_beq, length, take, if◌then◌else◌,
}

abbrev pub Text : Type 0
Text = List ℕ

abbrev pub dash : ℕ
dash = 45

abbrev pub letter_x : ℕ
letter_x = 120

abbrev pub truncation_mark : Text
truncation_mark = dash ∷ dash ∷ dash ∷ []

abbrev hash_bytes : ℕ
hash_bytes = 4

abbrev pub hash_length : ℕ
hash_length = 2 * hash_bytes

abbrev pub min_truncated_length : ℕ
min_truncated_length = 1 + length truncation_mark + hash_length

pub record Constraints : Type 0 where
  pub max_length : ℕ
  pub valid_first_char : ℕ → Bool

abbrev pub is_lowercase_letter : ℕ → Bool
is_lowercase_letter r = leb 97 r && leb r 122

abbrev is_uppercase_letter : ℕ → Bool
is_uppercase_letter r = leb 65 r && leb r 90

abbrev pub is_digit : ℕ → Bool
is_digit r = leb 48 r && leb r 57

abbrev pub is_lowercase_alphanumeric : ℕ → Bool
is_lowercase_alphanumeric r = is_lowercase_letter r || is_digit r

abbrev default_constraints : Constraints
default_constraints = record { max_length = 253; valid_first_char = is_lowercase_alphanumeric }

abbrev service_constraints : Constraints
service_constraints = record { max_length = 63; valid_first_char = is_lowercase_letter }

-- `unicode.ToLower` of an ASCII letter adds 32.
unfoldable pub transform : ℕ → ℕ
transform r =
    if is_lowercase_alphanumeric r || nat_beq r dash
    then r
    else if is_uppercase_letter r
    then r + 32
    else dash

-- `strings.Join` with the separator "-".
unfoldable pub join : List Text → Text
join [] = []
join (part ∷ []) = part
join (part ∷ next ∷ parts) = part ++ dash ∷ join (next ∷ parts)

abbrev pub starts_well : Constraints → Text → Bool
starts_well cons [] = false
starts_well cons (c ∷ part) = cons.valid_first_char c

-- The first part gets a prefix if it does not start with a valid character.
unfoldable pub fix_first : Constraints → List Text → List Text
fix_first cons [] = []
fix_first cons (part ∷ parts) =
    if not (starts_well cons part) then (letter_x ∷ part) ∷ parts else part ∷ parts

-- `s[:len(s)-n]`, which panics where `n` is more than the length.
abbrev drop_end : ℕ → Text → Option Text
drop_end n s = if leb n (length s) then some (take (length s - n) s) else none

abbrev with_suffix : Text → Option Text → Option Text
with_suffix suffix none = none
with_suffix suffix (some s) = some (s ++ suffix)

-- The end of `JoinSaltWithConstraints`, on the joined parts and the hash.
unfoldable pub append_hash : Constraints → Text → Text → Option Text
append_hash cons partial_result hash =
    let predicted_length = length partial_result + 1 + length hash in
    if leb predicted_length cons.max_length
    then some (partial_result ++ dash ∷ hash)
    else (let cut_length = predicted_length - cons.max_length + 2 in
        with_suffix (truncation_mark ++ hash) (drop_end cut_length partial_result))

module _ (hash : List Text → Text) where
  abbrev join_parts : Constraints → List Text → List Text → Option Text
  join_parts cons salt [] = some []
  join_parts cons salt (part ∷ parts) =
      append_hash cons (join (fix_first cons (map (map transform) (part ∷ parts))))
        (hash (salt ++ part ∷ parts))

  -- A panic is `none`.
  unfoldable pub join_salt_with_constraints : Constraints → List Text → List Text → Option Text
  unfolding append_hash join fix_first transform
  join_salt_with_constraints cons salt parts =
      if ltb cons.max_length min_truncated_length then none else join_parts cons salt parts

  unfoldable join_with_constraints : Constraints → List Text → Option Text
  unfolding join_salt_with_constraints
  join_with_constraints cons parts = join_salt_with_constraints cons [] parts

  -- `DeprecatedJoin` and `DeprecatedJoinSalt`.
  unfoldable deprecated_join : List Text → Text
  unfolding join
  deprecated_join parts = join (parts ++ hash parts ∷ [])

  unfoldable deprecated_join_salt : List Text → List Text → Text
  unfolding join
  deprecated_join_salt salt parts = join (parts ++ hash (salt ++ parts) ∷ [])
