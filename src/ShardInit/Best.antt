-- ===== src/ShardInit/Best.antt =====
-- About the loop of `electInitialShardPrimary` over the answers of the tablets.
use vitess_operator.Prelude.{
  ◌≡◌, refl, sym, ◌∙◌, ap, subst, ◌⊎◌, inl, inr, Bool, true, false, Option, none, some, List, [],
  ◌∷◌, ◌++◌, In, string_eq, Bool-cases, arith,
}
use vitess_operator.ShardInit.Elect.{
  TabletKind, primary_kind, replica_kind, rdonly_kind, other_kind, Tablet, ElectEnv,
  get_tablet_status, better, collect_statuses,
}

module _ {P : Type 0} (env : ElectEnv P) where
  -- A tablet of type replica that is done restoring.
  abbrev pub IsReady : Tablet → P → Type 0
  IsReady t p = (t.kind ≡ replica_kind) × (get_tablet_status env t ≡ some (p, true))

  -- What `AtLeast` is as the inclusion of sets of transactions: it need not hold one way or the other
  -- of two positions. That it does of those the candidates report is what the comment of
  -- `electInitialShardPrimary` assumes of replicas that were all restored from the same backup.
  pub record IsPositionOrder : Type 0 where
    pub refl : (p : P) → env.at_least p p ≡ true
    pub trans :
        (p q r : P) → env.at_least p q ≡ true → env.at_least q r ≡ true → env.at_least p r ≡ true
    pub comparable :
        (tablets : List Tablet)
        → env.tablets ≡ some tablets
        → (t u : Tablet) (p q : P) → In t tablets
        → In u tablets
        → IsReady t p
        → IsReady u q
        → env.at_least p q ≡ false
        → env.at_least q p ≡ true

  abbrev pub AtLeast : Option (Tablet × P) → P → Type 0
  AtLeast r q = (c : Tablet × P) × (r ≡ some c) × (env.at_least c.1 q ≡ true)

  pub record IsBest (xs : List Tablet) (cand r : Option (Tablet × P)) : Type 0 where
    pub from : (c : Tablet × P) → r ≡ some c → (cand ≡ some c) ⊎ (In c.0 xs × IsReady c.0 c.1)
    pub above : (c : Tablet × P) → cand ≡ some c → AtLeast r c.1
    pub best : (u : Tablet) (q : P) → In u xs → IsReady u q → AtLeast r q

  module _ (o : IsPositionOrder) (tablets : List Tablet) (listed : env.tablets ≡ some tablets) where
    -- The candidate is one of the shard's tablets, and ready.
    abbrev IsOwn : Option (Tablet × P) → Type 0
    IsOwn cand = (d : Tablet × P) → cand ≡ some d → In d.0 tablets × IsReady d.0 d.1

    abbrev AreOwn : List Tablet → Type 0
    AreOwn xs = (u : Tablet) → In u xs → In u tablets

    skipped-IsBest :
        (t : Tablet) (xs : List Tablet) (cand r : Option (Tablet × P))
        → ((q : P) → IsReady t q → ⊥)
        → IsBest xs cand r
        → IsBest (t ∷ xs) cand r
    skipped-IsBest t xs cand r unready h = record {
      from = λ c e. elim (h.from c e) [ inl k ↦ inl k | inr (i, k) ↦ inr (inr i, k) ];
      above = h.above;
      best = λ u q i k. elim i [
        | inl e ↦ absurd (unready q (subst (λ x. IsReady x q) (sym e) k))
        | inr j ↦ h.best u q j k
      ];
    }

    better-cases :
        (cand : Option (Tablet × P)) (t : Tablet) (p : P)
        → IsOwn cand
        → In t tablets
        → IsReady t p
        → (c : Tablet × P) × (better env cand (t, p) ≡ some c)
          × ((c ≡ (t, p)) ⊎ (cand ≡ some c))
          × (env.at_least c.1 p ≡ true)
          × ((d : Tablet × P) → cand ≡ some d → env.at_least c.1 d.1 ≡ true)
    better-cases none t p own i k = ((t, p), refl, inl refl, o.refl p, λ d e. absurd (ground arith))
    better-cases (some d) t p own i k = elim (Bool-cases (env.at_least d.1 p)) [
      | inl e ↦ (
        d,
        ground arith,
        inr refl,
        e,
        λ d' x.
            let same : d ≡ d' = ground arith in
            subst (λ (z : Tablet × P). env.at_least d.1 z.1 ≡ true) same (o.refl d.1),
      )
      | inr e ↦ (
        (t, p),
        ground arith,
        inl refl,
        o.refl p,
        λ d' x.
            let same : d ≡ d' = ground arith in
            subst (λ (z : Tablet × P). env.at_least p z.1 ≡ true) same
              (o.comparable tablets listed d.0 t d.1 p (own d refl).0 i (own d refl).1 k e),
      )
    ]

    taken-IsBest :
        (t : Tablet) (p : P) (xs : List Tablet) (cand r : Option (Tablet × P))
        → IsOwn cand
        → In t tablets
        → IsReady t p
        → IsBest xs (better env cand (t, p)) r
        → IsBest (t ∷ xs) cand r
    taken-IsBest t p xs cand r own in_all k h =
        let (c, e, origin, over, over_old) = better-cases cand t p own in_all k in
        let (top, is_top, above) = h.above c e in
        record {
          from = λ d f. elim (h.from d f) [
            | inr (i, l) ↦ inr (inr i, l)
            | inl b ↦
                let same : c ≡ d = ground arith in
                elim origin [
                  | inr old ↦ inl (old ∙ ap some same)
                  | inl fresh ↦
                      let at : (t, p) ≡ d = sym fresh ∙ same in
                      inr (
                        inl (ap (λ (z : Tablet × P). z.0) at),
                        subst (λ (z : Tablet × P). IsReady z.0 z.1) at k,
                      )
                ]
          ];
          above = λ d f. (top, is_top, o.trans top.1 c.1 d.1 above (over_old d f));
          best = λ u q i l. elim i [
            | inr j ↦ h.best u q j l
            | inl same ↦
                let both : some (p, true) ≡ some (q, true) =
                  sym k.1 ∙ ap (get_tablet_status env) same ∙ l.1 in
                let at : p ≡ q = ground (arith, both) in
                (
                  top,
                  is_top,
                  subst (λ x. env.at_least top.1 x ≡ true) at (o.trans top.1 c.1 p above over),
                )
          ];
        }

    better-IsOwn :
        (cand : Option (Tablet × P)) (t : Tablet) (p : P)
        → IsOwn cand
        → In t tablets
        → IsReady t p
        → IsOwn (better env cand (t, p))
    better-IsOwn cand t p own i k d e =
        let (c, f, origin, over, over_old) = better-cases cand t p own i k in
        let same : c ≡ d = ground arith in
        elim origin [
          | inr old ↦ own d (old ∙ ap some same)
          | inl fresh ↦
              subst (λ (z : Tablet × P). In z.0 tablets × IsReady z.0 z.1) (sym fresh ∙ same) (i, k)
        ]

    pub collect_statuses-IsBest :
        (xs : List Tablet) (cand : Option (Tablet × P)) (restored : List Tablet)
        → AreOwn xs
        → IsOwn cand
        → IsBest xs cand (collect_statuses env xs cand restored).0
    unfolding collect_statuses
    collect_statuses-IsBest [] cand restored all own = record {
      from = λ c e. inl e;
      above = λ c e. (c, e, o.refl c.1);
      best = λ u q i k. absurd i;
    }
    collect_statuses-IsBest (t ∷ xs) cand restored all own =
        of_status (λ c l. collect_statuses-IsBest xs c l (λ u i. all u (inr i)))
          (get_tablet_status env t) refl t.kind refl
      where
        of_status :
            ((c : Option (Tablet × P)) (l : List Tablet)
              → IsOwn c
              → IsBest xs c (collect_statuses env xs c l).0)
            → (s : Option (P × Bool)) → get_tablet_status env t ≡ s
            → (k : TabletKind) → t.kind ≡ k
            → IsBest
                (t ∷ xs)
                cand
                (elim s as (λ x. Option (Tablet × P) × List Tablet) [
                  | none ↦ collect_statuses env xs cand restored
                  | some (p, false) ↦ collect_statuses env xs cand restored
                  | some (p, true) ↦ elim k as (λ x. Option (Tablet × P) × List Tablet) [
                    | replica_kind ↦
                        collect_statuses env xs (better env cand (t, p)) (restored ++ t ∷ [])
                    | rdonly_kind ↦ collect_statuses env xs cand (restored ++ t ∷ [])
                    | primary_kind ↦ collect_statuses env xs cand restored
                    | other_kind ↦ collect_statuses env xs cand restored
                  ]
                ]).0
        of_status rest none e k f =
            skipped-IsBest t xs cand _ (λ q l. ground (arith, e, l.1)) (rest cand restored own)
        of_status rest (some (p, false)) e k f =
            skipped-IsBest t xs cand _ (λ q l. ground (arith, e, l.1)) (rest cand restored own)
        of_status rest (some (p, true)) e replica_kind f =
            taken-IsBest t p xs cand _ own (all t (inl refl)) (f, e)
              (rest _ _ (better-IsOwn cand t p own (all t (inl refl)) (f, e)))
        of_status rest (some (p, true)) e rdonly_kind f =
            skipped-IsBest t xs cand _ (λ q l. ground (arith, f, l.0)) (rest _ _ own)
        of_status rest (some (p, true)) e primary_kind f =
            skipped-IsBest t xs cand _ (λ q l. ground (arith, f, l.0)) (rest _ _ own)
        of_status rest (some (p, true)) e other_kind f =
            skipped-IsBest t xs cand _ (λ q l. ground (arith, f, l.0)) (rest _ _ own)
