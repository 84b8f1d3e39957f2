-- ===== src/KeyRanges.antt =====
-- pkg/apis/planetscale/v2/keyrange.go: key ranges, their names and their order.
pub mod Identity
use Prim.Native.Char.{Char, code}
use Prim.Native.String.{String, ◌++◌}
use vitess_operator.Prelude.{
  Bool, true, false, ◌&&◌, not, Option, none, some, List, nat_beq, ◌==◌, string_eq, if◌then◌else◌,
  str_lt, sort_by,
}

pub record KeyRange : Type 0 where
  pub start : String
  pub end : String

-- `String`
unfoldable pub key_range_string : KeyRange → String
key_range_string kr = kr.start ++ ("-" ++ kr.end)

-- A bound as it stands in a name.
abbrev pub safe_bound : String → String
safe_bound bound = if bound == "" then "x" else bound

unfoldable pub safe_name : KeyRange → String
safe_name kr = safe_bound kr.start ++ ("-" ++ safe_bound kr.end)

-- The `less` of `SortKeyRanges`.
unfoldable pub key_range_less : KeyRange → KeyRange → Bool
key_range_less a b =
    if str_lt a.start b.start
    then true
    else if a.start == b.start
    then (if not (a.end == "") && b.end == ""
        then true
        else if a.end == "" && not (b.end == "")
        then false
        else str_lt a.end b.end)
    else false

unfoldable pub sort_key_ranges : List KeyRange → List KeyRange
unfolding sort_by key_range_less
sort_key_ranges krs = sort_by key_range_less krs

abbrev pub before_start : Char → Option (String × String) → Option (String × String)
before_start c none = none
before_start c (some (start, end)) = some (String.◌∷◌ c start, end)

-- `strings.Cut` at the first "-".
unfoldable pub cut_dash : String → Option (String × String)
cut_dash String.[] = none
cut_dash (String.◌∷◌ c s) =
    let rest = cut_dash s in if nat_beq (code c) 45 then some ("", s) else before_start c rest
