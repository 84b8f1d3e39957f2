-- ===== src/Mysql/Upgrades.antt =====
-- Which changes of an image are refused, and which ones need a slow shutdown.
use vitess_operator.Prelude.{
  ◌≡◌, refl, ◌≢◌, ◌↔◌, ◌⊎◌, sym, ap, ◌∙◌, ◌≤◌, ◌<◌, true, false, Option, none, some, [], ◌∷◌, ◌++◌,
  ok, nat_beq, nat_beq_iff, All, arith, if◌then◌else◌,
}
use vitess_operator.Mysql.{
  Text, colon, dot, is_digit, text_beq, label_of, digits, after_digits, Match, match_patch,
  find_version, Version, version_of, compare_versions, is_8_0, same_match, is_empty,
  docker_image_safe_upgrade,
}

text_beq_iff : (s t : Text) → (text_beq s t ≡ true) ↔ (s ≡ t)
text_beq_iff [] [] = ground arith
text_beq_iff [] (d ∷ t) = ground arith
text_beq_iff (c ∷ s) [] = ground arith
text_beq_iff (c ∷ s) (d ∷ t) = ground (arith, text_beq_iff s t, nat_beq_iff c d)

label_of-append :
    (repo label : Text)
    → All (λ c. nat_beq c colon ≡ false) repo
    → label_of (repo ++ colon ∷ label) ≡ some label
unfolding label_of
label_of-append [] label h = refl
label_of-append (c ∷ repo) label h = ground (arith, label_of-append repo label h.1)

-- What follows a number: its first character is no digit.
abbrev IsRest : Text → Type 0
IsRest [] = Unit
IsRest (c ∷ s) = is_digit c ≡ false

digits-append :
    (d rest : Text) → All (λ c. is_digit c ≡ true) d → IsRest rest → digits (d ++ rest) ≡ (d, rest)
unfolding digits
digits-append [] [] h r = refl
digits-append [] (c ∷ rest) h r = ground arith
digits-append (c ∷ d) rest h r = ground (arith, digits-append d rest h.1 r)

abbrev IsNumber : Text → Type 0
IsNumber [] = ⊥
IsNumber (c ∷ d) = All (λ x. is_digit x ≡ true) (c ∷ d)

IsNumber-digits : (d : Text) → IsNumber d → All (λ c. is_digit c ≡ true) d
IsNumber-digits [] h = absurd h
IsNumber-digits (c ∷ d) h = h

after_digits-number :
    (d rest : Text) → IsNumber d → after_digits (digits (d ++ dot ∷ rest)) ≡ some (d, rest)
after_digits-number [] rest h = absurd h
after_digits-number (c ∷ d) rest h = ap after_digits (digits-append (c ∷ d) (dot ∷ rest) h refl)

match_patch-number :
    (major minor d rest : Text)
    → IsNumber d
    → IsRest rest
    → match_patch major minor (digits (d ++ rest))
      ≡ some (record { major = major; minor = minor; patch = d })
match_patch-number major minor [] rest h r = absurd h
match_patch-number major minor (c ∷ d) rest h r =
    ap (match_patch major minor) (digits-append (c ∷ d) rest h r)

abbrev pub print : Match → Text → Text
print m rest = m.major ++ (dot ∷ (m.minor ++ (dot ∷ (m.patch ++ rest))))

abbrev IsVersion : Match → Type 0
IsVersion m = IsNumber m.major × IsNumber m.minor × IsNumber m.patch

-- The version that a label starts with is found, whatever follows it, unless that is a digit.
pub find_version-print :
    (m : Match) (rest : Text) → IsVersion m → IsRest rest → find_version (print m rest) ≡ some m
unfolding find_version
find_version-print m rest h r = ground (
  arith,
  after_digits-number m.major (m.minor ++ (dot ∷ (m.patch ++ rest))) h.0,
  after_digits-number m.minor (m.patch ++ rest) h.1,
  match_patch-number m.major m.minor m.patch rest h.2 r,
)

-- An image: its repository, without ':', and its label, which starts with a version.
pub record Image : Type 0 where
  pub repo : Text
  pub version : Match
  pub rest : Text

abbrev pub IsImage : Image → Type 0
IsImage i = All (λ c. nat_beq c colon ≡ false) i.repo × IsVersion i.version × IsRest i.rest

abbrev pub text_of : Image → Text
text_of i = i.repo ++ colon ∷ print i.version i.rest

text_of-not_empty : (i : Image) → is_empty (text_of i) ≡ false
text_of-not_empty i = at i.repo
  where
    at : (repo : Text) → is_empty (repo ++ colon ∷ print i.version i.rest) ≡ false
    at [] = refl
    at (c ∷ repo) = refl

abbrev found_in : Option Text → Option Match
found_in none = none
found_in (some label) = find_version label

found-text_of : (i : Image) → IsImage i → found_in (label_of (text_of i)) ≡ some i.version
found-text_of i h =
    ap found_in (label_of-append i.repo (print i.version i.rest) h.0)
    ∙ find_version-print i.version i.rest h.1 h.2

some_match : (a b : Match) → some a ≡ some b → same_match a b ≡ true
some_match a b e = ground (
  arith,
  text_beq_iff a.major b.major,
  text_beq_iff a.minor b.minor,
  text_beq_iff a.patch b.patch,
)

same_image :
    (i j : Image)
    → IsImage i
    → IsImage j
    → text_beq (text_of j) (text_of i) ≡ true
    → same_match i.version j.version ≡ true
same_image i j hi hj e = some_match i.version j.version (
    sym (found-text_of i hi)
    ∙ ap (λ t. found_in (label_of t)) (sym ((text_beq_iff (text_of j) (text_of i)).0 e))
    ∙ found-text_of j hj)

-- On images whose labels start with versions, `DockerImageSafeUpgrade` depends on the versions
-- only: nothing is to be done if they are written alike, and else they are compared.
pub docker_image_safe_upgrade-text_of :
    (i j : Image)
    → IsImage i
    → IsImage j
    → docker_image_safe_upgrade (text_of i) (text_of j) ≡ (
        if same_match i.version j.version
        then ok false
        else compare_versions (version_of i.version) (version_of j.version))
unfolding docker_image_safe_upgrade
docker_image_safe_upgrade-text_of i j hi hj = ground (
  arith,
  same_image i j hi hj,
  text_of-not_empty i,
  text_of-not_empty j,
  label_of-append i.repo (print i.version i.rest) hi.0,
  label_of-append j.repo (print j.version j.rest) hj.0,
  find_version-print i.version i.rest hi.1 hi.2,
  find_version-print j.version j.rest hj.1 hj.2,
)

-- A change is allowed without a slow shutdown exactly if major and minor version stay, and it is not
-- one of the patch version of 8.0 that starts or ends before 8.0.34.
pub compare_versions-fast_iff :
    (cur dst : Version)
    → (compare_versions cur dst ≡ ok false) ↔ (
        (dst.major ≡ cur.major)
        × (dst.minor ≡ cur.minor)
        × ((is_8_0 dst ≡ false) ⊎ (34 ≤ dst.patch) × (34 ≤ cur.patch) ⊎ (dst.patch ≡ cur.patch)))
unfolding compare_versions
compare_versions-fast_iff cur dst = ground arith

-- A lower minor version of the same major version is not refused, but allowed with a slow shutdown,
-- if the current minor version is another number than the major version.
pub compare_versions-minor_downgrade :
    (cur dst : Version)
    → dst.major ≡ cur.major
    → dst.minor < cur.minor
    → cur.minor ≢ cur.major
    → compare_versions cur dst ≡ ok true
unfolding compare_versions
compare_versions-minor_downgrade cur dst same lower other = ground arith
