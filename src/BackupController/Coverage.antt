-- ===== src/BackupController/Coverage.antt =====
-- About `expandStrategy`: the shards of a strategy for the whole cluster.
use vitess_operator.Prelude.{
  ◌≡◌, ◌↔◌, ◌⊎◌, refl, sym, ◌∙◌, ap, subst, inl, inr, Bool, true, false, String, List, [], ◌∷◌,
  ◌++◌, Map, ok, Bool-cases, string_eq, if◌then◌else◌, In, In-append_left, In-append_right, arith,
}
use vitess_operator.BackupSchedule.{Strategy, scope_shard, scope_cluster, is_set}
use vitess_operator.BackupController.Targets.{
  Keyspace, ExpansionContext, is_excluded, expand_to_shards, expand_cluster, expand_scope,
  expand_strategy,
}

-- One of the strategies is for the shard of the keyspace.
abbrev pub Covers : List Strategy → String → String → Type 0
Covers strategies ks_name shard =
    (s : Strategy) × In s strategies × (s.keyspace ≡ ks_name) × (s.shard ≡ shard)

-- A keyspace that is not excluded has the shard.
abbrev pub IsCovered : Map String Bool → List Keyspace → String → String → Type 0
IsCovered excluded keyspaces ks_name shard =
    (ks : Keyspace) × In ks keyspaces
    × (ks.name ≡ ks_name)
    × (is_excluded excluded ks_name ≡ false)
    × In shard ks.shards

expand_to_shards-In :
    (base : Strategy) (ks_name : String) (shards : List String) (s : Strategy)
    → In s (expand_to_shards base ks_name shards)
    → (s.keyspace ≡ ks_name) × In s.shard shards
unfolding expand_to_shards
expand_to_shards-In base ks_name [] s i = absurd i
expand_to_shards-In base ks_name (shard ∷ shards) s (inl e) =
    (sym (ap (λ (t : Strategy). t.keyspace) e), inl (ap (λ (t : Strategy). t.shard) e))
expand_to_shards-In base ks_name (shard ∷ shards) s (inr i) =
    let (k, j) = expand_to_shards-In base ks_name shards s i in (k, inr j)

expand_to_shards-Covers :
    (base : Strategy) (ks_name : String) (shards : List String) (shard : String)
    → In shard shards
    → Covers (expand_to_shards base ks_name shards) ks_name shard
unfolding expand_to_shards
expand_to_shards-Covers base ks_name [] shard i = absurd i
expand_to_shards-Covers base ks_name (x ∷ shards) shard (inl e) = (_, inl refl, refl, e)
expand_to_shards-Covers base ks_name (x ∷ shards) shard (inr i) =
    let (s, j, k, l) = expand_to_shards-Covers base ks_name shards shard i in (s, inr j, k, l)

In-append : {A : Type 0} (a : A) (xs ys : List A) → In a (xs ++ ys) → In a xs ⊎ In a ys
In-append a [] ys i = inr i
In-append a (x ∷ xs) ys (inl e) = inl (inl e)
In-append a (x ∷ xs) ys (inr i) = elim (In-append a xs ys i) [ inl j ↦ inl (inr j) | inr j ↦ inr j ]

module _ (base : Strategy) (excluded : Map String Bool) where
  expand_cluster-nil : (s : Strategy) → In s (expand_cluster base excluded []) → ⊥
  unfolding expand_cluster
  expand_cluster-nil s i = i

  expand_cluster-step :
      (ks : Keyspace) (keyspaces : List Keyspace)
      → ((is_excluded excluded ks.name ≡ true)
          × (expand_cluster base excluded (ks ∷ keyspaces)
              ≡ expand_cluster base excluded keyspaces))
        ⊎ ((is_excluded excluded ks.name ≡ false)
            × (expand_cluster base excluded (ks ∷ keyspaces)
                ≡ expand_to_shards base ks.name ks.shards
                  ++ expand_cluster base excluded keyspaces))
  unfolding expand_cluster
  expand_cluster-step ks keyspaces = elim (Bool-cases (is_excluded excluded ks.name)) [
    | inl e ↦ inl (e, ground arith)
    | inr e ↦ inr (e, ground arith)
  ]

  covered :
      (keyspaces : List Keyspace) (s : Strategy)
      → In s (expand_cluster base excluded keyspaces)
      → IsCovered excluded keyspaces s.keyspace s.shard
  covered [] s i = absurd (expand_cluster-nil s i)
  covered (ks ∷ keyspaces) s i = elim (expand_cluster-step ks keyspaces) [
    | inl (e, go) ↦
        let (k, j, a, b, c) = covered keyspaces s (subst (In s) go i) in (k, inr j, a, b, c)
    | inr (e, go) ↦
        elim (In-append s (expand_to_shards base ks.name ks.shards)
          (expand_cluster base excluded keyspaces) (subst (In s) go i)) [
            | inl j ↦
                let (k, l) = expand_to_shards-In base ks.name ks.shards s j in
                (ks, inl refl, sym k, ap (is_excluded excluded) k ∙ e, l)
            | inr j ↦ let (k, l, a, b, c) = covered keyspaces s j in (k, inr l, a, b, c)
          ]
  ]

  covering :
      (keyspaces : List Keyspace) (ks : Keyspace) (shard : String)
      → In ks keyspaces
      → is_excluded excluded ks.name ≡ false
      → In shard ks.shards
      → Covers (expand_cluster base excluded keyspaces) ks.name shard
  covering [] ks shard i n j = absurd i
  covering (k ∷ keyspaces) ks shard i n j = elim (expand_cluster-step k keyspaces) [
    | inl (e, go) ↦
        subst (λ l. Covers l ks.name shard) (sym go)
          (elim i [
            | inl same ↦
                absurd (ground (arith, ap (λ (x : Keyspace). is_excluded excluded x.name) same))
            | inr later ↦ covering keyspaces ks shard later n j
          ])
    | inr (e, go) ↦
        let rest = expand_cluster base excluded keyspaces in
        let first = expand_to_shards base k.name k.shards in
        subst (λ l. Covers l ks.name shard) (sym go)
          (elim i [
            | inl same ↦
                let (s, a, b, c) =
                  expand_to_shards-Covers base k.name k.shards shard
                    (subst (λ (x : Keyspace). In shard x.shards) (sym same) j) in
                (s, In-append_left s first rest a, b ∙ ap (λ (x : Keyspace). x.name) same, c)
            | inr later ↦
                let (s, a, b, c) = covering keyspaces ks shard later n j in
                (s, In-append_right s first rest a, b, c)
          ])
  ]

-- A strategy for the cluster is expanded to strategies for exactly the shards of the keyspaces that
-- are not excluded.
pub expand_strategy-Covers :
    (ctx : ExpansionContext) (strategy : Strategy)
    → strategy.scope ≡ scope_cluster
    → (expanded : List Strategy) × (expand_strategy ctx strategy ≡ ok expanded)
      × ((ks_name shard : String)
          → Covers expanded ks_name shard
            ↔ IsCovered ctx.excluded_keyspaces ctx.all_keyspaces ks_name shard)
unfolding expand_strategy expand_scope
expand_strategy-Covers ctx strategy e =
    let excluded = ctx.excluded_keyspaces in
    let all = ctx.all_keyspaces in
    (
      expand_cluster strategy excluded all,
      ap (λ x. expand_scope ctx strategy (if is_set x then x else scope_shard)) e,
      λ ks_name shard. (
        (λ (s, i, k, l).
            subst (λ x. IsCovered excluded all x shard) k
              (subst (λ x. IsCovered excluded all s.keyspace x) l
                (covered strategy excluded all s i))),
        λ (ks, i, k, n, j).
            subst (λ x. Covers (expand_cluster strategy excluded all) x shard) k
              (covering strategy excluded all ks shard i (ap (is_excluded excluded) k ∙ n) j),
      ),
    )
