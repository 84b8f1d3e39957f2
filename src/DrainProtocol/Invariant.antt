-- ===== src/DrainProtocol/Invariant.antt =====
-- The invariant of the protocol, and that every step keeps it.
use vitess_operator.Prelude.{
  ◌≡◌, ◌≢◌, ◌⊎◌, inl, inr, sym, ◌∙◌, ap, subst, ◌≤◌, String, true, List, [], ◌∷◌, ◌++◌, In, eq_iff,
  string_eq, arith, Bool-cases, str_lt, ◌==◌,
}
use vitess_operator.Meta.{ObjectMeta}
use vitess_operator.DrainProtocol.{Pods, World, set, change}
use vitess_operator.DrainProtocol.History.{
  replay, Along, replay-push, Along-push, Rising, Rising-push, Rising-le, Rising-Along,
}
use vitess_operator.DrainProtocol.Phases.{phase, phase-bound, IsSane}

-- Where `b` is seen acknowledged, `a` is seen finished.
abbrev pub Later : String → String → Pods → Type 0
Later a b pods = 2 ≤ phase (pods b) → phase (pods a) ≡ 3

pub record Inv (names : List String) (w : World) : Type 0 where
  pub sane : (b : String) → IsSane (w.cur b)
  -- The cache with all changes that it has not seen is the server's state.
  pub caught_up : replay w.view w.queue ≡ w.cur
  pub rising : (b : String) → Rising (λ t. phase (t b)) w.view w.queue
  pub behind : (b : String) → phase (w.snap b) ≤ phase (w.view b)
  pub listed : (b : String) → 1 ≤ phase (w.cur b) → In b names
  -- Nothing is acknowledged that the running pass has not read as requested.
  pub seen : (b : String) → 2 ≤ phase (w.cur b) → 1 ≤ phase (w.snap b)
  -- Beside a finished Pod nothing else is finished, and what is acknowledged has a greater alias
  -- or was acknowledged later.
  pub alone :
      (a b : String)
      → a ≢ b
      → phase (w.cur a) ≡ 3
      → (phase (w.cur b) ≤ 2)
        × ((str_lt a b ≡ true) ⊎ Later a b w.snap × Along (Later a b) w.view w.queue)

pub phase-set :
    (n : String) (m : ObjectMeta) (pods : Pods) (b : String)
    → ((b ≡ n) × (phase (set n m pods b) ≡ phase m))
      ⊎ ((b ≢ n) × (phase (set n m pods b) ≡ phase (pods b)))
phase-set n m pods b = elim (Bool-cases (b == n)) [
  | inl e ↦ inl ((eq_iff b n).0 e, rw e)
  | inr e ↦ inr ((λ p. cc ((eq_iff b n).1 p)), rw e)
]

module _ {names : List String} (w : World) (inv : Inv names w) where
  pub snap-le-cur : (b : String) → phase (w.snap b) ≤ phase (w.cur b)
  snap-le-cur b =
      let h : phase (w.view b) ≤ phase (w.cur b) =
        subst (λ t. phase (w.view b) ≤ phase (t b)) inv.caught_up
          (Rising-le (λ t. phase (t b)) w.view w.queue (inv.rising b)) in
      omega (arith, inv.behind b)

  -- No state that the cache is still to see is ahead of the server.
  pub Along-le-cur : (b : String) → Along (λ t. phase (t b) ≤ phase (w.cur b)) w.view w.queue
  Along-le-cur b =
      subst (λ c. Along (λ t. phase (t b) ≤ phase (c b)) w.view w.queue) inv.caught_up
        (Rising-Along (λ t. phase (t b)) w.view w.queue (inv.rising b))

  -- A change that does not take the drain back, with what is left to show of it.
  module _ (n : String) (m : ObjectMeta) (fine : IsSane m) (grows : phase (w.cur n) ≤ phase m) where
    set-IsSane : (b : String) → IsSane (set n m w.cur b)
    set-IsSane b = elim (Bool-cases (b == n)) [ inl e ↦ rw e fine | inr e ↦ rw e (inv.sane b) ]

    set-Rising : (b : String) → Rising (λ t. phase (t b)) w.view (w.queue ++ (n, m) ∷ [])
    set-Rising b =
        Rising-push (λ t. phase (t b)) w.view w.queue (n, m) (inv.rising b)
          (rw inv.caught_up
            (ground (arith, phase-set n m w.cur b, ap (λ k. phase (w.cur k)) {x = b} {y = n})))

    abbrev Alone : String → String → Type 0
    Alone a b =
        (phase (set n m w.cur b) ≤ 2)
        × ((str_lt a b ≡ true) ⊎ Later a b w.snap × Along (Later a b) w.view w.queue)

    pub change-Inv :
        (1 ≤ phase m → In n names)
        → (2 ≤ phase m → 1 ≤ phase (w.snap n))
        → ((a b : String) → a ≢ b → phase (set n m w.cur a) ≡ 3 → Alone a b)
        → Inv names (change n m w)
    change-Inv listed seen alone = record {
      sane = set-IsSane;
      caught_up = replay-push w.view w.queue (n, m) ∙ ap (set n m) inv.caught_up;
      rising = set-Rising;
      behind = inv.behind;
      listed = λ b h. elim (phase-set n m w.cur b) [
        | inl (e, p) ↦ subst (λ k. In k names) (sym e) (listed (rw p at h))
        | inr (e, p) ↦ inv.listed b (rw p at h)
      ];
      seen = λ b h. elim (phase-set n m w.cur b) [
        | inl (e, p) ↦ subst (λ k. 1 ≤ phase (w.snap k)) (sym e) (seen (rw p at h))
        | inr (e, p) ↦ inv.seen b (rw p at h)
      ];
      alone = λ a b other done.
          let (below, order) = alone a b other done in
          (
            below,
            elim order [
              | inl less ↦ inl less
              | inr (at_snap, along) ↦ inr (
                at_snap,
                Along-push (Later a b) w.view w.queue (n, m) along
                    (λ _. subst (λ t. phase (set n m t a) ≡ 3) (sym inv.caught_up) done),
              )
            ],
          );
    }

    -- A change that finishes nothing.
    pub Alone-kept :
        (phase m ≡ 3 → phase (w.cur n) ≡ 3)
        → (a b : String) → a ≢ b
        → phase (set n m w.cur a) ≡ 3
        → Alone a b
    Alone-kept same a b other done =
        let before : phase (w.cur a) ≡ 3 = elim (phase-set n m w.cur a) [
          | inl (e, p) ↦ rw e (same (rw p at done))
          | inr (e, p) ↦ rw p at done
        ] in
        let (below, order) = inv.alone a b other before in
        (
          elim (phase-set n m w.cur b) [
            | inl (e, p) ↦
                let below' : phase (w.cur n) ≤ 2 = subst (λ k. phase (w.cur k) ≤ 2) e below in
                rw p (ground (arith, phase-bound m))
            | inr (e, p) ↦ rw p below
          ],
          order,
        )
