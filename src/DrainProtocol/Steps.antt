-- ===== src/DrainProtocol/Steps.antt =====
-- Every change, sync and start of a pass keeps the invariant.
use vitess_operator.Prelude.{
  leb, ◌≡◌, ◌≢◌, ◌⊎◌, inl, inr, sym, ◌∙◌, ap, subst, ◌≤◌, String, true, false, List, ◌∷◌, In,
  string_eq, arith, Bool-cases, str_lt, str_lt_antisymm,
}
use vitess_operator.Meta.{ObjectMeta}
use vitess_operator.Drain.{start}
use vitess_operator.DrainProtocol.{World, set, change}
use vitess_operator.DrainProtocol.History.{Along, Along-head, Along-map}
use vitess_operator.DrainProtocol.Phases.{phase, phase-bound, IsSane, phase-start}
use vitess_operator.DrainProtocol.Invariant.{
  Later, Inv, phase-set, snap-le-cur, Along-le-cur, change-Inv, Alone-kept,
}

module _ {names : List String} (w : World) (inv : Inv names w) where
  pub request-Inv :
      (n message : String) → In n names → Inv names (change n (start (w.cur n) message) w)
  request-Inv n message listed =
      let (fine, p) = phase-start (w.cur n) message (inv.sane n) in
      let m = start (w.cur n) message in
      let grows : phase (w.cur n) ≤ phase m = ground arith in
      change-Inv w inv n m fine grows (λ _. listed) (λ h. ground (arith, inv.seen n))
        (Alone-kept w inv n m fine grows (λ h. ground arith))

  pub other-Inv :
      (n : String) (m : ObjectMeta)
      → IsSane m
      → phase m ≡ phase (w.cur n)
      → Inv names (change n m w)
  other-Inv n m fine p =
      let grows : phase (w.cur n) ≤ phase m = omega arith in
      change-Inv w inv n m fine grows (λ h. inv.listed n (omega arith))
        (λ h. inv.seen n (omega arith)) (Alone-kept w inv n m fine grows (λ h. omega arith))

  pub acknowledge-Inv :
      (n : String) (m : ObjectMeta)
      → IsSane m
      → phase m ≡ 2
      → w.cur n ≡ w.snap n
      → In n names
      → phase (w.snap n) ≡ 1
      → Inv names (change n m w)
  acknowledge-Inv n m fine p same listed requested =
      let at : phase (w.cur n) ≡ 1 = ap phase same ∙ requested in
      let grows : phase (w.cur n) ≤ phase m = omega arith in
      change-Inv w inv n m fine grows (λ _. listed) (λ h. omega arith)
        (Alone-kept w inv n m fine grows (λ h. omega arith))

  pub begin_pass-Inv : Inv names (record w { snap = w.view })
  begin_pass-Inv = record {
    sane = inv.sane;
    caught_up = inv.caught_up;
    rising = inv.rising;
    behind = λ b. omega arith;
    listed = inv.listed;
    seen = λ b h. omega (arith, inv.seen b h, inv.behind b);
    alone = λ a b ne done.
        let (below, order) = inv.alone a b ne done in
        (
          below,
          elim order [
            | inl less ↦ inl less
            | inr (at_snap, along) ↦ inr (Along-head (Later a b) w.view w.queue along, along)
          ],
        );
  }

  pub sync-Inv :
      (n : String) (m : ObjectMeta) (rest : List (String × ObjectMeta))
      → w.queue ≡ (n, m) ∷ rest
      → Inv names (record w { view = set n m w.view; queue = rest })
  sync-Inv n m rest e = record {
    sane = inv.sane;
    caught_up = rw e at (inv.caught_up);
    rising = λ b. (rw e at (inv.rising b)).1;
    behind = λ b. omega (arith, inv.behind b, (rw e at (inv.rising b)).0);
    listed = inv.listed;
    seen = inv.seen;
    alone = λ a b ne done.
        let (below, order) = inv.alone a b ne done in
        (
          below,
          elim order [
            | inl less ↦ inl less
            | inr (at_snap, along) ↦ inr (at_snap, (rw e at along).1)
          ],
        );
  }

  module _ (n : String) (m : ObjectMeta) (fine : IsSane m) (p : phase m ≡ 3)
      (same : w.cur n ≡ w.snap n) (listed : In n names) (acked : phase (w.snap n) ≡ 2)
      (least : (b : String)
        → In b names
        → (phase (w.snap b) ≡ 0) ⊎ (phase (w.snap b) ≡ 2) × (str_lt b n ≡ false)) where
    -- No other Pod is finished yet.
    none_finished : (c : String) → c ≢ n → phase (w.cur c) ≡ 3 → ⊥
    none_finished c ne done =
        ground (arith, inv.seen c, inv.alone c n ne done, least c (inv.listed c (omega arith)))

    -- A Pod with a smaller alias was seen without a drain, so it is not acknowledged.
    smaller :
        (b : String) → b ≢ n → str_lt n b ≡ false → (phase (w.snap b) ≡ 0) × (phase (w.cur b) ≤ 1)
    smaller b ne more =
        let before : str_lt b n ≡ true = elim (Bool-cases (str_lt b n)) [
          | inl t ↦ t
          | inr f ↦ absurd (ne (str_lt_antisymm b n f more))
        ] in
        let unseen : phase (w.snap b) ≡ 0 = elim (Bool-cases (leb 1 (phase (w.snap b)))) [
          | inr f ↦ ground arith
          | inl t ↦ ground (arith, least b (inv.listed b (ground (arith, snap-le-cur w inv b))))
        ] in
        (unseen, ground (arith, inv.seen b))

    abbrev AloneAfter : String → String → Type 0
    AloneAfter a b =
        (phase (set n m w.cur b) ≤ 2)
        × ((str_lt a b ≡ true) ⊎ Later a b w.snap × Along (Later a b) w.view w.queue)

    -- The finished Pod against another one.
    own_alone : (b : String) → b ≢ n → phase (set n m w.cur b) ≡ phase (w.cur b) → AloneAfter n b
    own_alone b ne q = (
      rw q (ground (arith, phase-bound (w.cur b), none_finished b ne)),
      elim (Bool-cases (str_lt n b)) [
        | inl less ↦ inl less
        | inr more ↦
            let (unseen, low) = smaller b ne more in
            inr (
              (λ h. absurd (omega arith)),
              Along-map _ (Later n b) (λ t h k. absurd (omega arith)) w.view w.queue
                  (Along-le-cur w inv b),
            )
      ],
    )

    finish_alone : (a b : String) → a ≢ b → phase (set n m w.cur a) ≡ 3 → AloneAfter a b
    finish_alone a b ne done = elim (phase-set n m w.cur a) [
      | inl (e, q) ↦ elim (phase-set n m w.cur b) [
        | inl (e', q') ↦ absurd (ne (e ∙ sym e'))
        | inr (away, q') ↦ subst (λ k. AloneAfter k b) (sym e) (own_alone b away q')
      ]
      | inr (away, q) ↦
          let before : phase (w.cur a) ≡ 3 = sym q ∙ done in
          elim (phase-set n m w.cur b) [
            | inl (e', q') ↦ absurd (none_finished a away before)
            | inr (away', q') ↦ let (below, order) = inv.alone a b ne before in (rw q' below, order)
          ]
    ]

    pub finish-Inv : Inv names (change n m w)
    finish-Inv =
        let grows : phase (w.cur n) ≤ phase m = omega (arith, ap phase same) in
        change-Inv w inv n m fine grows (λ _. listed) (λ h. omega arith) finish_alone
