-- ===== src/BackupController/Duplicates.antt =====
-- About `validateNoDuplicateExpandedShardTargets`: the targets of the strategies of a schedule.
use vitess_operator.Prelude.{
  ◌≡◌, ◌≢◌, ◌↔◌, refl, sym, ◌∙◌, ap, inl, inr, Bool, true, false, String, none, List, [], ◌∷◌, ◌++◌,
  Map, lookup, insert, lookup-insert, Answer, ok, err, Answer-cases, Option-cases, string_eq, All,
  arith,
}
use vitess_operator.BackupSchedule.{Strategy, Problem}
use vitess_operator.BackupController.Targets.{
  ExpansionContext, expand_strategy, target, TargetProblem, see_targets, see_strategies,
  validate_no_duplicate_expanded_shard_targets,
}

-- All strategies, expanded.
unfoldable pub expand_all : ExpansionContext → List Strategy → Answer (List Strategy) Problem
expand_all ctx [] = ok []
expand_all ctx (s ∷ strategies) = elim (expand_strategy ctx s) [
  | err e ↦ err e
  | ok expanded ↦ elim (expand_all ctx strategies) [
    | err e ↦ err e
    | ok rest ↦ ok (expanded ++ rest)
  ]
]

abbrev pub IsDistinct : List Strategy → Type 0
IsDistinct [] = Unit
IsDistinct (s ∷ strategies) = All (λ t. target s ≢ target t) strategies × IsDistinct strategies

abbrev is_ok : {A E : Type 0} → Answer A E → Bool
is_ok (ok a) = true
is_ok (err e) = false

abbrev NotSeen : Map String String → List Strategy → Type 0
NotSeen seen = All (λ s. lookup (target s) seen ≡ none)

NotSeen-nil : (xs : List Strategy) → NotSeen [] xs
unfolding lookup
NotSeen-nil [] = tt
NotSeen-nil (x ∷ xs) = (refl, NotSeen-nil xs)

lookup-insert-none_iff :
    (t k v : String) (seen : Map String String)
    → (lookup t (insert k v seen) ≡ none) ↔ ((lookup t seen ≡ none) × (k ≢ t))
lookup-insert-none_iff t k v seen = ground (arith, lookup-insert t k v seen, string_eq.same_iff k t)

NotSeen-insert_iff :
    (k v : String) (seen : Map String String) (xs : List Strategy)
    → NotSeen (insert k v seen) xs ↔ (NotSeen seen xs × All (λ t. k ≢ target t) xs)
NotSeen-insert_iff k v seen [] = ((λ h. (tt, tt)), λ h. tt)
NotSeen-insert_iff k v seen (x ∷ xs) =
    let one = lookup-insert-none_iff (target x) k v seen in
    let rest = NotSeen-insert_iff k v seen xs in
    (
      (λ h. (((one.0 h.0).0, (rest.0 h.1).0), ((one.0 h.0).1, (rest.0 h.1).1))),
      λ h. (one.1 (h.0.0, h.1.0), rest.1 (h.0.1, h.1.1)),
    )

see_targets_iff :
    (xs : List Strategy) (seen : Map String String)
    → (is_ok (see_targets xs seen) ≡ true) ↔ (NotSeen seen xs × IsDistinct xs)
unfolding see_targets
see_targets_iff [] seen = ((λ h. (tt, tt)), λ h. refl)
see_targets_iff (x ∷ xs) seen = elim (Option-cases (lookup (target x) seen)) [
  | inr (existing, e) ↦
      let go : is_ok (see_targets (x ∷ xs) seen) ≡ false = ground arith in
      ((λ h. absurd (ground (arith, go))), λ h. absurd (ground (arith, h.0.0)))
  | inl e ↦
      let next = insert (target x) x.name seen in
      let go : is_ok (see_targets (x ∷ xs) seen) ≡ is_ok (see_targets xs next) = ground arith in
      let rest = see_targets_iff xs next in
      let split = NotSeen-insert_iff (target x) x.name seen xs in
      (
        (λ h. let r = rest.0 (sym go ∙ h) in let q = split.0 r.0 in ((e, q.0), (q.1, r.1))),
        λ h. go ∙ rest.1 (split.1 (h.0.1, h.1.0), h.1.1),
      )
]

see_targets-append :
    (xs ys : List Strategy) (seen : Map String String)
    → see_targets (xs ++ ys) seen
      ≡ (elim (see_targets xs seen) as (λ r. Answer (Map String String) TargetProblem) [
        | err e ↦ err e
        | ok seen' ↦ see_targets ys seen'
      ])
unfolding see_targets
see_targets-append [] ys seen = refl
see_targets-append (x ∷ xs) ys seen = elim (Option-cases (lookup (target x) seen)) [
  | inr (existing, e) ↦ ground arith
  | inl e ↦ ground (arith, see_targets-append xs ys (insert (target x) x.name seen))
]

-- The strategies are accepted as they are expanded, if all of them can be, and see no target twice.
abbrev IsAccepted : ExpansionContext → List Strategy → Map String String → Type 0
IsAccepted ctx strategies seen =
    (all : List Strategy) × (expand_all ctx strategies ≡ ok all)
    × (is_ok (see_targets all seen) ≡ true)

expand_all-split :
    (ctx : ExpansionContext) (s : Strategy) (strategies expanded all : List Strategy)
    → expand_strategy ctx s ≡ ok expanded
    → expand_all ctx (s ∷ strategies) ≡ ok all
    → (rest : List Strategy) × (expand_all ctx strategies ≡ ok rest) × (expanded ++ rest ≡ all)
unfolding expand_all
expand_all-split ctx s strategies expanded all x a =
    elim (Answer-cases (expand_all ctx strategies)) [
      | inr (e, r) ↦ absurd (ground arith)
      | inl (rest, r) ↦ (rest, r, ground arith)
    ]

expand_all-nil : (ctx : ExpansionContext) → expand_all ctx [] ≡ ok []
unfolding expand_all
expand_all-nil ctx = refl

see_targets-nil : (seen : Map String String) → is_ok (see_targets [] seen) ≡ true
unfolding see_targets
see_targets-nil seen = refl

expand_all-cons :
    (ctx : ExpansionContext) (s : Strategy) (strategies expanded rest : List Strategy)
    → expand_strategy ctx s ≡ ok expanded
    → expand_all ctx strategies ≡ ok rest
    → expand_all ctx (s ∷ strategies) ≡ ok (expanded ++ rest)
unfolding expand_all
expand_all-cons ctx s strategies expanded rest x r = ground arith

expand_all-err :
    (ctx : ExpansionContext) (s : Strategy) (strategies all : List Strategy) (e : Problem)
    → expand_strategy ctx s ≡ err e
    → expand_all ctx (s ∷ strategies) ≢ ok all
unfolding expand_all
expand_all-err ctx s strategies all e x a = ground arith

is_ok-append :
    (xs ys : List Strategy) (seen seen' : Map String String)
    → see_targets xs seen ≡ ok seen'
    → is_ok (see_targets (xs ++ ys) seen) ≡ is_ok (see_targets ys seen')
is_ok-append xs ys seen seen' e = ground (arith, see_targets-append xs ys seen)

is_ok-append_err :
    (xs ys : List Strategy) (seen : Map String String) (x : TargetProblem)
    → see_targets xs seen ≡ err x
    → is_ok (see_targets (xs ++ ys) seen) ≡ false
is_ok-append_err xs ys seen x e = ground (arith, see_targets-append xs ys seen)

see_strategies_iff :
    (ctx : ExpansionContext) (strategies : List Strategy) (seen : Map String String)
    → (see_strategies ctx strategies seen ≡ none) ↔ IsAccepted ctx strategies seen
unfolding see_strategies
see_strategies_iff ctx [] seen = ((λ h. ([], expand_all-nil ctx, see_targets-nil seen)), λ h. refl)
see_strategies_iff ctx (s ∷ strategies) seen = elim (Answer-cases (expand_strategy ctx s)) [
  | inr (e, x) ↦ (
    (λ h. absurd (ground arith)),
    λ (all, a, o). absurd (expand_all-err ctx s strategies all e x a),
  )
  | inl (expanded, x) ↦ elim (Answer-cases (see_targets expanded seen)) [
    | inr (e, y) ↦ (
      (λ h. absurd (ground arith)),
      λ (all, a, o).
          let (rest, r, j) = expand_all-split ctx s strategies expanded all x a in
          let no = is_ok-append_err expanded rest seen e y in
          absurd (ground (arith, sym (ap (λ l. is_ok (see_targets l seen)) j) ∙ no)),
    )
    | inl (seen', y) ↦
        let later = see_strategies_iff ctx strategies seen' in
        let go : see_strategies ctx (s ∷ strategies) seen ≡ see_strategies ctx strategies seen' =
          ground arith in
        (
          (λ h.
              let (rest, r, k) = later.0 (sym go ∙ h) in
              (
                expanded ++ rest,
                expand_all-cons ctx s strategies expanded rest x r,
                is_ok-append expanded rest seen seen' y ∙ k,
              )),
          λ (all, a, o).
              let (rest, r, j) = expand_all-split ctx s strategies expanded all x a in
              go
              ∙ later.1 (
                rest,
                r,
                sym (is_ok-append expanded rest seen seen' y)
                    ∙ ap (λ l. is_ok (see_targets l seen)) j
                    ∙ o,
              ),
        )
  ]
]

-- The check for duplicates accepts a list of strategies exactly if each has a known scope and the
-- strategies that they expand to have targets that are all different.
pub validate_no_duplicate_expanded_shard_targets-none_iff :
    (ctx : ExpansionContext) (strategies : List Strategy)
    → (validate_no_duplicate_expanded_shard_targets ctx strategies ≡ none)
      ↔ ((all : List Strategy) × (expand_all ctx strategies ≡ ok all) × IsDistinct all)
unfolding validate_no_duplicate_expanded_shard_targets
validate_no_duplicate_expanded_shard_targets-none_iff ctx strategies =
    let accepted = see_strategies_iff ctx strategies [] in
    (
      (λ h. let (all, a, o) = accepted.0 h in (all, a, ((see_targets_iff all []).0 o).1)),
      λ (all, a, d). accepted.1 (all, a, (see_targets_iff all []).1 (NotSeen-nil all, d)),
    )
