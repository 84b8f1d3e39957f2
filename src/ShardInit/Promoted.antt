-- ===== src/ShardInit/Promoted.antt =====
-- About `initRestoredShard`: when a restored tablet is promoted.
use vitess_operator.Prelude.{
  ◌≡◌, refl, sym, ap, subst, ◌⊎◌, inl, inr, true, ◌||◌, not, String, Option, none, some, List, [],
  ◌∷◌, In, In-arrive, arrive, string_eq, if◌then◌else◌, Option-cases, Bool-cases, arith,
}
use vitess_operator.ShardInit.{
  Shard, using_external_datastore, backups_enabled, condition_true, condition_false,
  condition_unknown, condition_unset, is_condition_true, ConditionStatus,
}
use vitess_operator.ShardInit.Elect.{
  TabletKind, primary_kind, replica_kind, rdonly_kind, other_kind, Tablet, promote_replica,
  set_shard_primary, ElectEnv, Claims, nobody, one, many, find_existing_primary, collect_statuses,
  reparent_others, promote, promote_candidate, elect_replica, elect_among,
  elect_initial_shard_primary, init_without_primary, init_restored_shard,
}
use vitess_operator.ShardInit.Best.{IsPositionOrder, IsReady, IsBest, collect_statuses-IsBest}

module _ {P : Type 0} (env : ElectEnv P) where
  find_existing_primary-one :
      (tablets : List Tablet) (t : Tablet) → find_existing_primary tablets (one t) ≡ nobody → ⊥
  unfolding find_existing_primary
  find_existing_primary-one [] t e = ground arith
  find_existing_primary-one (u ∷ tablets) t e =
      of_kind (find_existing_primary-one tablets t) u.kind e
    where
      of_kind :
          (find_existing_primary tablets (one t) ≡ nobody → ⊥)
          → (k : TabletKind)
          → elim k as (λ x. Claims) [
            | primary_kind ↦ many
            | replica_kind ↦ find_existing_primary tablets (one t)
            | rdonly_kind ↦ find_existing_primary tablets (one t)
            | other_kind ↦ find_existing_primary tablets (one t)
          ]
            ≡ nobody
          → ⊥
      of_kind rest primary_kind f = ground arith
      of_kind rest replica_kind f = rest f
      of_kind rest rdonly_kind f = rest f
      of_kind rest other_kind f = rest f

  find_existing_primary-nobody :
      (tablets : List Tablet)
      → find_existing_primary tablets nobody ≡ nobody
      → (u : Tablet) → In u tablets
      → u.kind ≡ primary_kind
      → ⊥
  unfolding find_existing_primary
  find_existing_primary-nobody [] e u i p = absurd i
  find_existing_primary-nobody (t ∷ tablets) e u i p =
      of_kind (λ f j. find_existing_primary-nobody tablets f u j p) t.kind refl e i
    where
      of_kind :
          (find_existing_primary tablets nobody ≡ nobody → In u tablets → ⊥)
          → (k : TabletKind) → t.kind ≡ k
          → elim k as (λ x. Claims) [
            | primary_kind ↦ find_existing_primary tablets (one t)
            | replica_kind ↦ find_existing_primary tablets nobody
            | rdonly_kind ↦ find_existing_primary tablets nobody
            | other_kind ↦ find_existing_primary tablets nobody
          ]
            ≡ nobody
          → (t ≡ u) ⊎ In u tablets
          → ⊥
      of_kind rest primary_kind g f j = find_existing_primary-one tablets t f
      of_kind rest replica_kind g f (inl same) =
          ground (arith, g, p, ap (λ (x : Tablet). x.kind) same)
      of_kind rest replica_kind g f (inr j) = rest f j
      of_kind rest rdonly_kind g f (inl same) =
          ground (arith, g, p, ap (λ (x : Tablet). x.kind) same)
      of_kind rest rdonly_kind g f (inr j) = rest f j
      of_kind rest other_kind g f (inl same) =
          ground (arith, g, p, ap (λ (x : Tablet). x.kind) same)
      of_kind rest other_kind g f (inr j) = rest f j

  -- What the promotion of a tablet needs.
  pub record IsElected (vts : Shard) (alias : String) : Type 0 where
    pub seeded : is_condition_true vts.has_initial_backup ≡ true
    pub primaryless : env.shard_primary ≡ some none
    pub locked : env.still_locked ≡ true
    pub chosen :
        (tablets : List Tablet) × (env.tablets ≡ some tablets)
        × ((u : Tablet) → In u tablets → u.kind ≡ primary_kind → ⊥)
        × (t : Tablet) × (p : P) × (t.alias ≡ alias)
        × In t tablets
        × IsReady env t p
        × ((u : Tablet) (q : P) → In u tablets → IsReady env u q → env.at_least p q ≡ true)

  reparent_others-promote :
      (primary alias : String) (restored : List Tablet)
      → In (promote_replica alias) (reparent_others env primary restored)
      → ⊥
  unfolding reparent_others
  reparent_others-promote primary alias [] i = i
  reparent_others-promote primary alias (t ∷ restored) i =
      ground (arith, reparent_others-promote primary alias restored)

  promote-alias :
      (t : Tablet) (restored : List Tablet) (alias : String)
      → In (promote_replica alias) (promote env t restored)
      → (t.alias ≡ alias) × (env.still_locked ≡ true)
  unfolding promote
  promote-alias t restored alias i = ground (arith, reparent_others-promote t.alias alias restored)

  module _ (o : IsPositionOrder env) (alias : String) where
    abbrev IsChosen : List Tablet → Type 0
    IsChosen arrived =
        (t : Tablet) × (p : P) × (t.alias ≡ alias)
        × In t arrived
        × IsReady env t p
        × ((u : Tablet) (q : P) → In u arrived → IsReady env u q → env.at_least p q ≡ true)

    promote_candidate-IsChosen :
        (arrived : List Tablet) (r : Option (Tablet × P)) (restored : List Tablet)
        → IsBest env arrived none r
        → In (promote_replica alias) (promote_candidate env (r, restored))
        → IsChosen arrived × (env.still_locked ≡ true)
    unfolding promote_candidate
    promote_candidate-IsChosen arrived none restored h i = absurd i
    promote_candidate-IsChosen arrived (some (t, p)) restored h i =
        let (same, locked) = promote-alias t restored alias i in
        elim (h.from (t, p) refl) [
          | inl e ↦ absurd (ground arith)
          | inr (j, k) ↦ (
            (
              t,
              p,
              same,
              j,
              k,
              λ u q l m.
                  let (c, e, above) = h.best u q l m in
                  let at : p ≡ c.1 = ground arith in
                  subst (λ x. env.at_least x q ≡ true) (sym at) above,
            ),
            locked,
          )
        ]

    elect_replica-IsChosen :
        (tablets : List Tablet)
        → env.tablets ≡ some tablets
        → In (promote_replica alias) (elect_replica env tablets)
        → IsChosen tablets × (env.still_locked ≡ true)
    unfolding elect_replica
    elect_replica-IsChosen tablets listed i =
        let arrived = arrive env.arrival tablets in
        let r = collect_statuses env arrived none [] in
        let best =
          collect_statuses-IsBest env o tablets listed arrived none []
            (λ u j. (In-arrive u env.arrival tablets).0 j) (λ d e. absurd (ground arith)) in
        let ((t, p, same, j, k, above), locked) =
          promote_candidate-IsChosen arrived r.0 r.1 best i in
        (
          (
            t,
            p,
            same,
            (In-arrive t env.arrival tablets).0 j,
            k,
            λ u q l m. above u q ((In-arrive u env.arrival tablets).1 l) m,
          ),
          locked,
        )

    elect_among-IsChosen :
        (tablets : List Tablet)
        → env.tablets ≡ some tablets
        → In (promote_replica alias) (elect_among env tablets)
        → (find_existing_primary tablets nobody ≡ nobody)
          × IsChosen tablets
          × (env.still_locked ≡ true)
    unfolding elect_among
    elect_among-IsChosen tablets listed i = of_claims (find_existing_primary tablets nobody) refl i
      where
        of_claims :
            (c : Claims)
            → find_existing_primary tablets nobody ≡ c
            → In (promote_replica alias) (elim c [
              | many ↦ []
              | one t ↦ if env.still_locked then set_shard_primary t.alias ∷ [] else []
              | nobody ↦ elect_replica env tablets
            ])
            → (find_existing_primary tablets nobody ≡ nobody)
              × IsChosen tablets
              × (env.still_locked ≡ true)
        of_claims many e j = absurd j
        of_claims (one t) e j = absurd (ground (arith, j))
        of_claims nobody e j =
            let (chosen, locked) = elect_replica-IsChosen tablets listed j in (e, chosen, locked)

    module _ (vts : Shard) where
      elected :
          is_condition_true vts.has_initial_backup ≡ true
          → In (promote_replica alias) (elect_initial_shard_primary env)
          → IsElected vts alias
      unfolding elect_initial_shard_primary
      elected seeded i = elim (Bool-cases env.locks) [
        | inr l ↦ absurd (ground arith)
        | inl l ↦ elim (Option-cases env.shard_primary) [
          | inl s ↦ absurd (ground arith)
          | inr (some a, s) ↦ absurd (ground arith)
          | inr (none, s) ↦ elim (Bool-cases env.durability_known) [
            | inr d ↦ absurd (ground arith)
            | inl d ↦ elim (Option-cases env.tablets) [
              | inl t ↦ absurd (ground arith)
              | inr (tablets, t) ↦
                  let go : elect_initial_shard_primary env ≡ elect_among env tablets =
                    ground arith in
                  let (claims, (u, p, a, b, c, d'), locked) =
                    elect_among-IsChosen tablets t (subst (In (promote_replica alias)) go i) in
                  record {
                    seeded = seeded;
                    primaryless = s;
                    locked = locked;
                    chosen = (
                      tablets,
                      t,
                      find_existing_primary-nobody tablets claims,
                      u,
                      p,
                      a,
                      b,
                      c,
                      d',
                    );
                  }
            ]
          ]
        ]
      ]

      without_primary :
          In (promote_replica alias) (init_without_primary env vts) → IsElected vts alias
      unfolding init_without_primary
      without_primary i = elim (Bool-cases (is_condition_true vts.has_initial_backup)) [
        | inr b ↦ absurd (ground arith)
        | inl b ↦ elected b (ground arith)
      ]

      -- If `AtLeast` is reflexive and transitive, and compares the positions of the shard's replicas
      -- that are done restoring: a tablet is promoted only after the initial backup, if the shard
      -- record has no primary and no tablet of the shard claims to be one, under the shard's lock; and
      -- it is a replica of the shard that is done restoring, with a position that is at least that of
      -- every replica of the shard that is done restoring and answers, in whatever order they answer.
      pub init_restored_shard-IsElected :
          In (promote_replica alias) (init_restored_shard env vts) → IsElected vts alias
      unfolding init_restored_shard
      init_restored_shard-IsElected i =
          elim (Bool-cases (
            not (backups_enabled vts.tablet_pools vts.backup_locations)
            || using_external_datastore vts.tablet_pools)) [
              | inl b ↦ absurd (ground arith)
              | inr b ↦ of_master vts.has_master (ground arith)
            ]
        where
          of_master :
              (c : ConditionStatus)
              → In (promote_replica alias) (elim c [
                | condition_true ↦ []
                | condition_unknown ↦ []
                | condition_false ↦ init_without_primary env vts
                | condition_unset ↦ init_without_primary env vts
              ])
              → IsElected vts alias
          of_master condition_true j = absurd j
          of_master condition_unknown j = absurd j
          of_master condition_false j = without_primary j
          of_master condition_unset j = without_primary j
