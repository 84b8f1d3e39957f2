-- ===== src/KeyRanges/Identity.antt =====
-- About the printed form, the names and the order of key ranges.
use Prim.Native.Char.{code}
use Prim.Native.String.{String, ◌++◌}
use text.Mathlib.TextLemmas.{cons-append, nil-append}
use mathlib.Core.List.{Perm}
use vitess_operator.Prelude.{
  Option, ◌≡◌, ◌≢◌, refl, sym, ◌∙◌, ap, inl, inr, Bool, true, false, ◌&&◌, not, some, List, nat_beq,
  ◌==◌, string_eq, if◌then◌else◌, str_lt, str_lt_trans, str_lt_asymm, str_lt_antisymm,
  str_lt_irrefl, IsOrder, IsSorted, sort_by-IsSorted, sort_by-perm, Bool-cases, arith,
}
use vitess_operator.KeyRanges.{
  KeyRange, key_range_string, safe_bound, safe_name, key_range_less, sort_key_ranges, cut_dash,
}

-- No character of the text is "-".
abbrev pub has_dash : String → Bool
has_dash String.[] = false
has_dash (String.◌∷◌ c s) = if nat_beq (code c) 45 then true else has_dash s

cut_dash-append : (s t : String) → has_dash s ≡ false → cut_dash (s ++ ("-" ++ t)) ≡ some (s, t)
unfolding cut_dash
cut_dash-append String.[] t h =
    ap cut_dash (nil-append ("-" ++ t) ∙ cons-append "-" "" t ∙ ap (String.◌∷◌ "-") (nil-append t))
cut_dash-append (String.◌∷◌ c s) t h =
    let rest = cut_dash-append s t (ground arith) in
    let go : cut_dash (String.◌∷◌ c (s ++ ("-" ++ t))) ≡ some (String.◌∷◌ c s, t) =
      ground (arith, rest) in
    ap cut_dash (cons-append c s ("-" ++ t)) ∙ go

-- A printed key range, whose start has no "-", is cut into its bounds.
pub cut_dash-key_range_string :
    (kr : KeyRange)
    → has_dash kr.start ≡ false
    → cut_dash (key_range_string kr) ≡ some (kr.start, kr.end)
unfolding key_range_string
cut_dash-key_range_string kr h = cut_dash-append kr.start kr.end h

-- Bounds that a key range may have: "x" stands for an empty one in names.
abbrev pub IsBound : String → Type 0
IsBound bound = (has_dash bound ≡ false) × (bound ≢ "x")

has_dash-safe_bound : (s : String) → IsBound s → has_dash (safe_bound s) ≡ false
has_dash-safe_bound s h = elim (Bool-cases (s == "")) [
  | inl e ↦ let go : safe_bound s ≡ "x" = ground arith in ap has_dash go
  | inr e ↦ let go : safe_bound s ≡ s = ground arith in ap has_dash go ∙ h.0
]

safe_bound_injective : (s t : String) → IsBound s → IsBound t → safe_bound s ≡ safe_bound t → s ≡ t
safe_bound_injective s t h k e =
    ground (arith, h.1, k.1, string_eq.same_iff s "", string_eq.same_iff t "")

-- Two key ranges with the same name are the same.
pub safe_name_injective :
    (a b : KeyRange)
    → IsBound a.start
    → IsBound a.end
    → IsBound b.start
    → IsBound b.end
    → safe_name a ≡ safe_name b
    → a ≡ b
unfolding safe_name
safe_name_injective a b i j k l e =
    let p =
      cut_dash-append (safe_bound a.start) (safe_bound a.end) (has_dash-safe_bound a.start i) in
    let q =
      cut_dash-append (safe_bound b.start) (safe_bound b.end) (has_dash-safe_bound b.start k) in
    let both : ◌≡◌ {A = Option (String × String)} (some (safe_bound a.start, safe_bound a.end))
        (some (safe_bound b.start, safe_bound b.end)) =
      sym p ∙ ap cut_dash e ∙ q in
    let starts : safe_bound a.start ≡ safe_bound b.start = ground arith in
    let ends : safe_bound a.end ≡ safe_bound b.end = ground arith in
    let first = safe_bound_injective a.start b.start i k starts in
    let last = safe_bound_injective a.end b.end j l ends in ground arith

-- An order on ends in which the empty one is the last.
unfoldable end_less : String → String → Bool
end_less s t =
    if not (s == "") && t == ""
    then true
    else if s == "" && not (t == "")
    then false
    else str_lt s t

end_less-IsOrder : IsOrder end_less
unfolding end_less
end_less-IsOrder = record {
  trans = λ a b c h k.
      ground (arith, str_lt_trans a b c, string_eq.same_iff b "", string_eq.same_iff c "");
  asymm = λ a b h. ground (arith, str_lt_asymm a b);
  antisymm = λ a b h k.
      ground (arith, str_lt_antisymm a b, string_eq.same_iff a "", string_eq.same_iff b "");
}

key_range_less_lem :
    (a b : KeyRange)
    → key_range_less a b ≡ (
        if str_lt a.start b.start
        then true
        else if a.start == b.start
        then end_less a.end b.end
        else false)
unfolding key_range_less end_less
key_range_less_lem a b = refl

key_range_less-IsOrder : IsOrder key_range_less
key_range_less-IsOrder = record {
  trans = λ a b c h k. ground (
    arith,
    key_range_less_lem a b,
    key_range_less_lem b c,
    key_range_less_lem a c,
    end_less-IsOrder.trans a.end b.end c.end,
    str_lt_trans a.start b.start c.start,
    string_eq.same_iff a.start b.start,
    string_eq.same_iff b.start c.start,
    string_eq.same_iff a.start c.start,
    str_lt_asymm a.start b.start,
  );
  asymm = λ a b h. ground (
    arith,
    key_range_less_lem a b,
    key_range_less_lem b a,
    end_less-IsOrder.asymm a.end b.end,
    str_lt_asymm a.start b.start,
    string_eq.same_iff a.start b.start,
    string_eq.same_iff b.start a.start,
    str_lt_irrefl a.start,
  );
  antisymm = λ a b h k. ground (
    arith,
    key_range_less_lem a b,
    key_range_less_lem b a,
    end_less-IsOrder.antisymm a.end b.end,
    str_lt_antisymm a.start b.start,
    string_eq.same_iff a.start b.start,
    string_eq.same_iff b.start a.start,
  );
}

-- Sorting keeps the key ranges, and puts none before one that starts earlier, or that starts at the
-- same bound and ends earlier, where no bound is the latest end.
pub sort_key_ranges-IsSorted :
    (krs : List KeyRange)
    → Perm (sort_key_ranges krs) krs × IsSorted key_range_less (sort_key_ranges krs)
unfolding sort_key_ranges
sort_key_ranges-IsSorted krs =
    (sort_by-perm key_range_less krs, sort_by-IsSorted key_range_less key_range_less-IsOrder krs)
