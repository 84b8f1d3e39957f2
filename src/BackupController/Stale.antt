-- ===== src/BackupController/Stale.antt =====
-- About `reconcileStrategies`: the entries of the status.
use vitess_operator.Prelude.{
  ◌≡◌, refl, ◌∙◌, ap, subst, ◌⊎◌, inl, inr, Bool, true, false, String, Option, none, some, List, [],
  ◌∷◌, Map, lookup, insert, lookup-insert, In, Answer, ok, err, Option-cases, Bool-cases, ◌==◌,
  string_eq, or_zero, is_some, arith,
}
use vitess_operator.BackupSchedule.{Strategy, Problem}
use vitess_operator.BackupController.Targets.{ExpansionContext, Schedule, expand_strategy}
use vitess_operator.BackupController.Pass.{
  Env, Settings, Status, Outcome, config_problem, add_error, reconcile_strategy,
}
use vitess_operator.BackupController.Loop.{
  Progress, add_outcome, keep_active, keep_active_status, reconcile_expanded, reconcile_all,
  start_progress, finish_pass, reconcile_in,
}

abbrev is_active : Map String Bool → String → Bool
is_active active name = or_zero false (lookup name active)

keep_active-lookup :
    {V : Type 0} (active : Map String Bool) (m : Map String V) (name : String)
    → is_some (lookup name (keep_active active m)) ≡ true
    → is_active active name ≡ true
unfolding keep_active lookup
keep_active-lookup active [] name h = absurd (ground arith)
keep_active-lookup active ((k, v) ∷ m) name h =
    ground (arith, keep_active-lookup active m name, string_eq.same_iff k name)

none_active : (name : String) → is_active [] name ≡ true → ⊥
unfolding lookup
none_active name h = ground arith

-- One of the strategies is expanded to one of this name.
abbrev pub IsNamed : ExpansionContext → List Strategy → String → Type 0
IsNamed ctx strategies name =
    (s : Strategy) × (expanded : List Strategy) × (es : Strategy) × In s strategies
    × (expand_strategy ctx s ≡ ok expanded)
    × In es expanded
    × (es.name ≡ name)

module _ (P : String → Type 0) where
  abbrev AllNamed : Map String Bool → Type 0
  AllNamed active = (name : String) → is_active active name ≡ true → P name

  AllNamed-insert :
      (k : String) (active : Map String Bool)
      → P k
      → AllNamed active
      → AllNamed (insert k true active)
  AllNamed-insert k active p h name a = elim (Bool-cases (k == name)) [
    | inl e ↦ subst P ((string_eq.same_iff k name).0 e) p
    | inr n ↦ h name (ground (arith, lookup-insert name k true active))
  ]

  abbrev AllNamedIf : Option Progress → Type 0
  AllNamedIf none = Unit
  AllNamedIf (some p) = AllNamed p.active_names

  module _ (env : Env) (cfg : Settings) (s : Schedule) where
    reconcile_expanded-AllNamed :
        (expanded : List Strategy) (p : Progress)
        → ((es : Strategy) → In es expanded → P es.name)
        → AllNamed p.active_names
        → AllNamedIf (reconcile_expanded env cfg s expanded p)
    unfolding reconcile_expanded
    reconcile_expanded-AllNamed [] p names h = h
    reconcile_expanded-AllNamed (es ∷ expanded) p names h =
        of_one (λ q. reconcile_expanded-AllNamed expanded q (λ e i. names e (inr i)))
          (reconcile_strategy env cfg s es p.outcome.status)
      where
        of_one :
            ((q : Progress)
              → AllNamed q.active_names
              → AllNamedIf (reconcile_expanded env cfg s expanded q))
            → (r : Option Outcome)
            → AllNamedIf (elim r [
              | none ↦ none
              | some o ↦ reconcile_expanded env cfg s expanded (record {
                active_names = insert es.name true p.active_names;
                outcome = add_outcome o p.outcome;
              })
            ])
        of_one rest none = tt
        of_one rest (some o) =
            rest _ (AllNamed-insert es.name p.active_names (names es (inl refl)) h)

    reconcile_all-AllNamed :
        (ctx : ExpansionContext) (strategies : List Strategy) (p : Progress)
        → ((strategy : Strategy) (expanded : List Strategy) (es : Strategy)
            → In strategy strategies
            → expand_strategy ctx strategy ≡ ok expanded
            → In es expanded
            → P es.name)
        → AllNamed p.active_names
        → AllNamedIf (reconcile_all env cfg s ctx strategies p)
    unfolding reconcile_all
    reconcile_all-AllNamed ctx [] p names h = h
    reconcile_all-AllNamed ctx (strategy ∷ strategies) p names h =
        of_expansion (λ q. reconcile_all-AllNamed ctx strategies q (λ t x e i. names t x e (inr i)))
          (expand_strategy ctx strategy) refl
      where
        of_progress :
            ((q : Progress)
              → AllNamed q.active_names
              → AllNamedIf (reconcile_all env cfg s ctx strategies q))
            → (r : Option Progress) → AllNamedIf r
            → AllNamedIf
                (elim r [ none ↦ none | some p' ↦ reconcile_all env cfg s ctx strategies p' ])
        of_progress rest none n = tt
        of_progress rest (some p') n = rest p' n

        of_expansion :
            ((q : Progress)
              → AllNamed q.active_names
              → AllNamedIf (reconcile_all env cfg s ctx strategies q))
            → (r : Answer (List Strategy) Problem) → expand_strategy ctx strategy ≡ r
            → AllNamedIf (elim r [
              | err e ↦
                  reconcile_all env cfg s ctx strategies
                    (record p { outcome = add_error (config_problem e) p.outcome })
              | ok expanded ↦ elim (reconcile_expanded env cfg s expanded p) [
                | none ↦ none
                | some p' ↦ reconcile_all env cfg s ctx strategies p'
              ]
            ])
        of_expansion rest (err e) x = rest _ h
        of_expansion rest (ok expanded) x =
            of_progress rest (reconcile_expanded env cfg s expanded p) (
              reconcile_expanded-AllNamed expanded p
                (λ es i. names strategy expanded es (inl refl) x i) h)

kept :
    (p : Progress) (out : Outcome)
    → record p.outcome { status = keep_active_status p.active_names p.outcome.status } ≡ out
    → (name : String)
    → (is_some (lookup name out.status.last_scheduled_times) ≡ true)
      ⊎ (is_some (lookup name out.status.next_scheduled_times) ≡ true)
      ⊎ (is_some (lookup name out.status.generated_schedules) ≡ true)
    → is_active p.active_names name ≡ true
unfolding keep_active_status
kept p out go name (inl h) =
    keep_active-lookup p.active_names p.outcome.status.last_scheduled_times name
      (ap (λ (o : Outcome). is_some (lookup name o.status.last_scheduled_times)) go ∙ h)
kept p out go name (inr (inl h)) =
    keep_active-lookup p.active_names p.outcome.status.next_scheduled_times name
      (ap (λ (o : Outcome). is_some (lookup name o.status.next_scheduled_times)) go ∙ h)
kept p out go name (inr (inr h)) =
    keep_active-lookup p.active_names p.outcome.status.generated_schedules name
      (ap (λ (o : Outcome). is_some (lookup name o.status.generated_schedules)) go ∙ h)

-- After the strategies were reconciled, every entry of the status, of the last and the next runs and
-- of the generated schedules, is one of a strategy to which the schedule's strategies expand.
pub reconcile_in-IsNamed :
    (env : Env) (cfg : Settings) (s : Schedule) (ctx : ExpansionContext) (status : Status)
    (out : Outcome)
    → reconcile_in env cfg s ctx status ≡ some out
    → (name : String)
    → (is_some (lookup name out.status.last_scheduled_times) ≡ true)
      ⊎ (is_some (lookup name out.status.next_scheduled_times) ≡ true)
      ⊎ (is_some (lookup name out.status.generated_schedules) ≡ true)
    → IsNamed ctx s.strategies name
unfolding reconcile_in keep_active_status
reconcile_in-IsNamed env cfg s ctx status out e name entry =
    let named =
      reconcile_all-AllNamed (IsNamed ctx s.strategies) env cfg s ctx s.strategies
        (start_progress env cfg s status)
        (λ strategy expanded es i x j. (strategy, expanded, es, i, x, j, refl))
        (λ n a. absurd (none_active n a)) in
    elim (Option-cases
      (reconcile_all env cfg s ctx s.strategies (start_progress env cfg s status))) [
        | inl n ↦ absurd (ground arith)
        | inr (p, x) ↦
            let at : AllNamed (IsNamed ctx s.strategies) p.active_names =
              subst (AllNamedIf (IsNamed ctx s.strategies)) x named in
            let go : finish_pass env cfg s p ≡ out = ground arith in
            at name (kept p out go name entry)
      ]
