-- ===== src/ShardDrain/Candidate.antt =====
-- About `candidatePrimary`: the tablets that are fit to take over from the primary.
use vitess_operator.Prelude.{
  ◌≡◌, refl, ◌↔◌, ◌⊎◌, inl, inr, sym, subst, String, Bool, true, false, ◌||◌, not, Option, none,
  some, List, [], ◌∷◌, Map, Answer-cases, ◌∙◌, All, In, In-All, In-arrive, ap, map, lookup, or_zero,
  string_eq, eq_iff, arith, Bool-cases, Option-cases, if◌then◌else◌, ◌==◌,
}
use vitess_operator.Drain
use vitess_operator.ShardDrain.Inputs.{
  Pod, TabletType, primary, replica, spare, other_type, Tablet, CandidateInfo, Env,
  tablet_type_label, external_master,
}
use vitess_operator.ShardDrain.Choice.{
  ask, ask_all, type_fits, is_candidate, candidates, best_of, choose, candidate_primary,
}

some-injective : {A : Type 0} (a b : A) → some a ≡ some b → a ≡ b
some-injective a b e = cc

module _ {P E : Type 0} (env : Env P E) (primary_alias : String) (pods : Map String Pod) where
  -- For local MySQL a replica, and for an external one a spare or a primary of the pool for it.
  abbrev pub FitsType : Tablet → Pod → Type 0
  FitsType tablet pod =
      (env.using_external ≡ false) × (tablet.tablet_type ≡ replica)
      ⊎ (env.using_external ≡ true)
        × ((tablet.tablet_type ≡ spare) ⊎ (tablet.tablet_type ≡ primary))
        × (lookup tablet_type_label pod.meta.labels ≡ some external_master)

  -- Not the primary, of a type that may take over, with a Pod that is ready and in no state of a drain.
  abbrev pub IsFit : String → Tablet → Type 0
  IsFit alias tablet =
      (tablet.alias ≡ primary_alias → ⊥)
      × (pod : Pod) × (lookup alias pods ≡ some pod)
      × FitsType tablet pod
      × (pod.ready ≡ true)
      × (Drain.started pod.meta ≡ false)
      × (Drain.acknowledged pod.meta ≡ false)
      × (Drain.finished pod.meta ≡ false)

  is_external-label :
      (pod : Pod)
      → ((or_zero "" (lookup tablet_type_label pod.meta.labels) == external_master) ≡ true)
        ↔ (lookup tablet_type_label pod.meta.labels ≡ some external_master)
  is_external-label pod = of_label (lookup tablet_type_label pod.meta.labels)
    where
      of_label :
          (r : Option String)
          → ((or_zero "" r == external_master) ≡ true) ↔ (r ≡ some external_master)
      of_label none = ground arith
      of_label (some label) = ground (arith, eq_iff label external_master)

  type_fits-FitsType :
      (tablet : Tablet) (pod : Pod)
      → (type_fits env primary_alias pods tablet.tablet_type pod ≡ true) ↔ FitsType tablet pod
  type_fits-FitsType tablet pod = of_type tablet.tablet_type refl
    where
      of_type :
          (k : TabletType)
          → tablet.tablet_type ≡ k
          → (type_fits env primary_alias pods k pod ≡ true) ↔ FitsType tablet pod
      of_type spare e = ground (arith, e, is_external-label pod)
      of_type primary e = ground (arith, e, is_external-label pod)
      of_type replica e = ground (arith, e)
      of_type other_type e = ground (arith, e)

  is_candidate-IsFit :
      (alias : String) (tablet : Tablet)
      → (is_candidate env primary_alias pods alias tablet ≡ true) ↔ IsFit alias tablet
  unfolding is_candidate
  is_candidate-IsFit alias tablet = elim (Option-cases (lookup alias pods)) [
    | inl e ↦ ground (arith, e)
    | inr (pod, e) ↦
        ground (arith, e, type_fits-FitsType tablet pod, eq_iff tablet.alias primary_alias)
  ]

  -- The tablet stands in the map, and passes the tests.
  abbrev IsCandidateOf : Map String Tablet → Tablet → Type 0
  IsCandidateOf tablets t =
      (alias : String) × In (alias, t) tablets
      × (is_candidate env primary_alias pods alias t ≡ true)

  -- A tablet of the map that is fit.
  abbrev pub IsFitOf : Map String Tablet → Tablet → Type 0
  IsFitOf tablets t = (alias : String) × In (alias, t) tablets × IsFit alias t

  more :
      (entry : String × Tablet) (tablets : Map String Tablet) (t : Tablet)
      → IsCandidateOf tablets t
      → IsCandidateOf (entry ∷ tablets) t
  more entry tablets t (alias, i, e) = (alias, inr i, e)

  In-if :
      (b : Bool) (t u : Tablet) (rest : List Tablet)
      → In t (if b then u ∷ rest else rest)
      → (b ≡ true) × (u ≡ t) ⊎ In t rest
  In-if true t u rest (inl same) = inl (refl, same)
  In-if true t u rest (inr i) = inr i
  In-if false t u rest i = inr i

  candidates_sound :
      (tablets : Map String Tablet) (t : Tablet)
      → In t (candidates env primary_alias pods tablets)
      → IsCandidateOf tablets t
  unfolding candidates
  candidates_sound [] t i = elim i [ ]
  candidates_sound ((alias, u) ∷ tablets) t i =
      elim (In-if (is_candidate env primary_alias pods alias u) t u
        (candidates env primary_alias pods tablets) i) [
          | inl (e, same) ↦ subst (IsCandidateOf ((alias, u) ∷ tablets)) same (alias, inl refl, e)
          | inr j ↦ more (alias, u) tablets t (candidates_sound tablets t j)
        ]

  candidates_complete :
      (tablets : Map String Tablet) (alias : String) (t : Tablet)
      → In (alias, t) tablets
      → is_candidate env primary_alias pods alias t ≡ true
      → In t (candidates env primary_alias pods tablets)
  unfolding candidates
  candidates_complete [] alias t i e = elim i [ ]
  candidates_complete ((name, u) ∷ tablets) alias t i e =
      ground (arith, candidates_complete tablets alias t)

  best_of-cons :
      (info : CandidateInfo P E) (infos : List (CandidateInfo P E)) (best : Option Tablet)
      (highest : P)
      → (best_of env primary_alias pods (info ∷ infos) best highest
          ≡ best_of env primary_alias pods infos best highest)
        ⊎ ((position : P) × (best_of env primary_alias pods (info ∷ infos) best highest
              ≡ best_of env primary_alias pods infos (some info.tablet) position))
  unfolding best_of
  best_of-cons info infos best highest = elim (Answer-cases info.position) [
    | inr (e, fails) ↦ inl (rw fails)
    | inl (position, answers) ↦
        elim (Bool-cases (env.is_zero highest || not (env.at_least highest position))) [
          | inl higher ↦ inr (position, rw (answers, higher))
          | inr lower ↦ inl (rw (answers, lower))
        ]
  ]

  best_of-nil :
      (best : Option Tablet) (highest : P) → best_of env primary_alias pods [] best highest ≡ best
  unfolding best_of
  best_of-nil best highest = refl

  best_of_sound :
      (Q : Tablet → Type 0) (infos : List (CandidateInfo P E)) (best : Option Tablet) (highest : P)
      → All (λ i. Q i.tablet) infos
      → ((t : Tablet) → best ≡ some t → Q t)
      → (t : Tablet) → best_of env primary_alias pods infos best highest ≡ some t
      → Q t
  best_of_sound Q [] best highest all h t e = h t (sym (best_of-nil best highest) ∙ e)
  best_of_sound Q (info ∷ infos) best highest all h t e =
      elim (best_of-cons info infos best highest) [
        | inl same ↦ best_of_sound Q infos best highest all.1 h t (sym same ∙ e)
        | inr (position, same) ↦
            best_of_sound Q infos (some info.tablet) position all.1
              (λ u k. subst Q (some-injective info.tablet u k) all.0) t (sym same ∙ e)
      ]

  In-ask :
      (tablets : List Tablet) (info : CandidateInfo P E)
      → In info (map (ask env primary_alias pods) tablets)
      → In info.tablet tablets
  In-ask [] info i = absurd i
  In-ask (t ∷ tablets) info (inl e) = inl (ap (λ (x : CandidateInfo P E). x.tablet) e)
  In-ask (t ∷ tablets) info (inr i) = inr (In-ask tablets info i)

  asked :
      (tablets : List Tablet)
      → All (λ i. In i.tablet tablets) (ask_all env primary_alias pods tablets)
  asked tablets = In-All _ (ask_all env primary_alias pods tablets) (λ info i.
      In-ask tablets info
        ((In-arrive info env.arrival (map (ask env primary_alias pods) tablets)).0 i))

  choose-In :
      (tablets : List Tablet) (t : Tablet)
      → choose env primary_alias pods tablets ≡ some t
      → In t tablets
  choose-In [] t e = cc
  choose-In (c ∷ cs) t e =
      let infos = ask_all env primary_alias pods (c ∷ cs) in
      elim (Option-cases (best_of env primary_alias pods infos none env.zero_position)) [
        | inl none_best ↦ inl (ground (arith, none_best, e))
        | inr (b, is_best) ↦
            best_of_sound (λ u. In u (c ∷ cs)) infos none env.zero_position (asked (c ∷ cs))
              (λ u k. cc) t (ground arith)
      ]

  choose-none_iff :
      (tablets : List Tablet) → (choose env primary_alias pods tablets ≡ none) ↔ (tablets ≡ [])
  choose-none_iff [] = ground arith
  choose-none_iff (c ∷ cs) = ground arith

  -- The tablet that `candidatePrimary` returns is one of the map that is not the primary, is of a
  -- type that may take over, and has a Pod that is ready and in no state of a drain, whatever the
  -- candidates answer for their positions, and in whatever order.
  pub candidate_primary-IsFitOf :
      (tablets : Map String Tablet) (t : Tablet)
      → candidate_primary env primary_alias pods tablets ≡ some t
      → IsFitOf tablets t
  unfolding candidate_primary
  candidate_primary-IsFitOf tablets t e =
      let (alias, i, passes) =
        candidates_sound tablets t (choose-In (candidates env primary_alias pods tablets) t e) in
      (alias, i, (is_candidate-IsFit alias t).0 passes)

  -- `candidatePrimary` returns no tablet exactly if no tablet of the map is fit to take over, whatever
  -- the candidates answer: without an answer for a position it still returns one.
  pub candidate_primary-none_iff :
      (tablets : Map String Tablet)
      → (candidate_primary env primary_alias pods tablets ≡ none)
        ↔ ((t : Tablet) → IsFitOf tablets t → ⊥)
  unfolding candidate_primary
  candidate_primary-none_iff tablets = (
    (λ e t (alias, i, fit).
        let empty = (choose-none_iff (candidates env primary_alias pods tablets)).0 e in
        subst (In t) empty
          (candidates_complete tablets alias t i ((is_candidate-IsFit alias t).1 fit))),
    (λ h.
        elim (Option-cases
          (choose env primary_alias pods (candidates env primary_alias pods tablets))) [
            | inl e ↦ e
            | inr (t, e) ↦ absurd (h t (candidate_primary-IsFitOf tablets t e))
          ]),
  )
