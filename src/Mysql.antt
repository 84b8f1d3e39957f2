-- ===== src/Mysql.antt =====
-- pkg/operator/mysql/mysql.go: whether a change of the MySQL image needs a slow shutdown first.
--
-- A string is the list of its code points. The version number of an image label is matched greedily
-- by the regular expression `^(\d+)\.(\d+)\.(\d+)`.
pub mod Upgrades
use vitess_operator.Prelude.{
  ℕ, ◌+◌, ◌-◌, ◌*◌, ◌^◌, Bool, true, false, ◌&&◌, ◌||◌, not, Option, none, some, List, [], ◌∷◌,
  Answer, ok, err, ltb, leb, nat_beq, if◌then◌else◌,
}

abbrev pub Text : Type 0
Text = List ℕ

abbrev pub colon : ℕ
colon = 58

abbrev pub dot : ℕ
dot = 46

abbrev pub is_digit : ℕ → Bool
is_digit c = leb 48 c && leb c 57

abbrev pub text_beq : Text → Text → Bool
text_beq [] [] = true
text_beq [] (d ∷ t) = false
text_beq (c ∷ s) [] = false
text_beq (c ∷ s) (d ∷ t) = nat_beq c d && text_beq s t

-- `strings.SplitN(image, ":", 2)[1]`, if there are two parts.
unfoldable pub label_of : Text → Option Text
label_of [] = none
label_of (c ∷ image) = if nat_beq c colon then some image else label_of image

-- The longest run of digits, and what follows it.
unfoldable pub digits : Text → Text × Text
digits [] = ([], [])
digits (c ∷ s) = let (d, rest) = digits s in if is_digit c then (c ∷ d, rest) else ([], c ∷ s)

abbrev pub after_digits : Text × Text → Option (Text × Text)
after_digits ([], rest) = none
after_digits (c ∷ d, []) = none
after_digits (c ∷ d, e ∷ rest) = if nat_beq e dot then some (c ∷ d, rest) else none

-- The three submatches of `imageVersionRegExp`.
pub record Match : Type 0 where
  pub major : Text
  pub minor : Text
  pub patch : Text

abbrev pub match_patch : Text → Text → Text × Text → Option Match
match_patch major minor ([], rest) = none
match_patch major minor (c ∷ d, rest) =
    some (record { major = major; minor = minor; patch = c ∷ d })

unfoldable pub find_version : Text → Option Match
unfolding digits
find_version s = elim (after_digits (digits s)) [
  | none ↦ none
  | some (major, rest) ↦ elim (after_digits (digits rest)) [
    | none ↦ none
    | some (minor, rest') ↦ match_patch major minor (digits rest')
  ]
]

abbrev max_int : ℕ
max_int = 2 ^ 63 - 1

abbrev pub value : Text → ℕ → ℕ
value [] n = n
value (c ∷ s) n = value s (10 * n + (c - 48))

-- `strconv.Atoi` of digits, whose range error the code ignores: the value is then the largest one.
unfoldable pub atoi : Text → ℕ
atoi s = let n = value s 0 in if leb n max_int then n else max_int

pub record Version : Type 0 where
  pub major : ℕ
  pub minor : ℕ
  pub patch : ℕ

unfoldable pub version_of : Match → Version
unfolding atoi
version_of m = record { major = atoi m.major; minor = atoi m.minor; patch = atoi m.patch }

pub data Refusal : Type 0 where
  major_downgrade minor_downgrade patch_downgrade : Refusal

abbrev pub is_8_0 : Version → Bool
is_8_0 v = nat_beq v.major 8 && nat_beq v.minor 0

-- From the comparison of the major versions on. The second test is written as in the source: it
-- takes the minor version of `cur` where its major version is meant.
unfoldable pub compare_versions : Version → Version → Answer Bool Refusal
compare_versions cur dst =
    if ltb dst.major cur.major
    then err major_downgrade
    else if nat_beq dst.major cur.minor && ltb dst.minor cur.minor
    then err minor_downgrade
    else if is_8_0 dst && is_8_0 cur
    then (if leb 34 dst.patch && leb 34 cur.patch
        then ok false
        else if ltb dst.patch cur.patch
        then err patch_downgrade
        else ok (not (nat_beq dst.patch cur.patch)))
    else ok (not (nat_beq dst.major cur.major) || not (nat_beq dst.minor cur.minor))

abbrev pub same_match : Match → Match → Bool
same_match a b = text_beq a.major b.major && text_beq a.minor b.minor && text_beq a.patch b.patch

abbrev compare_matches : Option Match → Option Match → Answer Bool Refusal
compare_matches none dst = ok true
compare_matches (some cur) none = ok true
compare_matches (some cur) (some dst) =
    if same_match cur dst then ok false else compare_versions (version_of cur) (version_of dst)

abbrev compare_labels : Option Text → Option Text → Answer Bool Refusal
compare_labels none desired = ok false
compare_labels (some current) none = ok false
compare_labels (some current) (some desired) =
    compare_matches (find_version current) (find_version desired)

abbrev pub is_empty : Text → Bool
is_empty [] = true
is_empty (c ∷ s) = false

unfoldable pub docker_image_safe_upgrade : Text → Text → Answer Bool Refusal
unfolding label_of find_version version_of compare_versions
docker_image_safe_upgrade current desired =
    if is_empty current || is_empty desired
    then ok false
    else if text_beq desired current
    then ok false
    else compare_labels (label_of current) (label_of desired)
