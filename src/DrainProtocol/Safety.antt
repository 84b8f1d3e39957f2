-- ===== src/DrainProtocol/Safety.antt =====
-- At most one Pod is ever finished.
use vitess_operator.Prelude.{
  ◌≡◌, inl, inr, ◌∙◌, ap, subst, ◌≤◌, String, true, false, some, List, [], In, eq_iff, string_eq,
  arith, Bool-cases, ◌==◌,
}
use vitess_operator.Meta.{ObjectMeta}
use vitess_operator.Drain.{started, acknowledged, finished}
use vitess_operator.ShardDrain.{touch}
use vitess_operator.DrainProtocol.{
  World, Step, request, other, sync, begin_pass, write, Reach, here, next,
}
use vitess_operator.DrainProtocol.Phases.{
  phase, IsSane, phase-other, phase-acknowledge, phase-finish,
}
use vitess_operator.DrainProtocol.Plan.{plan-acknowledges, plan-finishes, plan-only}
use vitess_operator.DrainProtocol.Invariant.{Inv}
use vitess_operator.DrainProtocol.Steps.{
  request-Inv, other-Inv, acknowledge-Inv, begin_pass-Inv, sync-Inv, finish-Inv,
}

-- A Pod that no controller has touched: it may carry a request, if it is one of the shard's.
abbrev IsFresh : List String → String → ObjectMeta → Type 0
IsFresh names n m =
    (acknowledged m ≡ false) × (finished m ≡ false) × (started m ≡ true → In n names)

-- The cache is up to date, and nothing is acknowledged yet.
pub record IsInitial (names : List String) (w : World) : Type 0 where
  pub fresh : (n : String) → IsFresh names n (w.cur n)
  pub cached : w.view ≡ w.cur
  pub read : w.snap ≡ w.cur
  pub no_changes : w.queue ≡ []

fresh-phase :
    (names : List String) (n : String) (m : ObjectMeta)
    → IsFresh names n m
    → IsSane m × (phase m ≤ 1) × (1 ≤ phase m → In n names)
unfolding phase
fresh-phase names n m h = ground arith

IsInitial-Inv : {names : List String} (w : World) → IsInitial names w → Inv names w
IsInitial-Inv {names} w i = record {
  sane = λ b. (fresh-phase names b (w.cur b) (i.fresh b)).0;
  caught_up = rw i.no_changes i.cached;
  rising = λ b. rw i.no_changes tt;
  behind = λ b. rw (i.read, i.cached) (omega arith);
  listed = λ b. (fresh-phase names b (w.cur b) (i.fresh b)).2;
  seen = λ b h. absurd (omega (arith, (fresh-phase names b (w.cur b) (i.fresh b)).1));
  alone = λ a b ne done. absurd (omega (arith, (fresh-phase names a (w.cur a) (i.fresh a)).1));
}

Step-Inv : {names : List String} {w v : World} → Step names w v → Inv names w → Inv names v
Step-Inv {w} (request n message listed) inv = request-Inv w inv n message listed
Step-Inv {w} (other n m same) inv =
    let (fine, p) = phase-other m (w.cur n) same (inv.sane n) in other-Inv w inv n m fine p
Step-Inv {w} (sync n m rest e) inv = sync-Inv w inv n m rest e
Step-Inv {w} begin_pass inv = begin_pass-Inv w inv
Step-Inv {names} {w} (write n now state m changed planned touched same) inv =
    elim (plan-only names w.snap n state planned) [
      | inl e ↦
          let (listed, requested) = plan-acknowledges names w.snap n (planned ∙ ap some e) in
          let (fine, p) =
            phase-acknowledge (w.snap n) now (subst IsSane same (inv.sane n)) requested
              (subst (λ s. touch now s (w.snap n) ≡ some (m, changed)) e touched) in
          acknowledge-Inv w inv n m fine p same listed requested
      | inr e ↦
          let (listed, acked, least) = plan-finishes names w.snap n (planned ∙ ap some e) in
          let (fine, p) =
            phase-finish (w.snap n) now (subst IsSane same (inv.sane n)) acked
              (subst (λ s. touch now s (w.snap n) ≡ some (m, changed)) e touched) in
          finish-Inv w inv n m fine p same listed acked least
    ]

Reach-Inv : {names : List String} {w v : World} → Inv names w → Reach names w v → Inv names v
Reach-Inv inv here = inv
Reach-Inv inv (next r st) = Step-Inv st (Reach-Inv inv r)

finished-phase : (m : ObjectMeta) → IsSane m → finished m ≡ true → phase m ≡ 3
unfolding phase
finished-phase m h e = ground arith

-- However the drainers, the cache and the passes interleave, as long as no Pod is deleted and no drain
-- is aborted: from a state in which nothing is acknowledged, no two Pods of the shard are ever
-- finished on the server.
pub one_finished :
    (names : List String) (w v : World)
    → IsInitial names w
    → Reach names w v
    → (a b : String) → finished (v.cur a) ≡ true
    → finished (v.cur b) ≡ true
    → a ≡ b
one_finished names w v i r a b da db =
    let inv = Reach-Inv (IsInitial-Inv w i) r in
    elim (Bool-cases (a == b)) [
      | inl e ↦ (eq_iff a b).0 e
      | inr e ↦ absurd (
          ground (
            arith,
            finished-phase (v.cur a) (inv.sane a) da,
            finished-phase (v.cur b) (inv.sane b) db,
            inv.alone a b (λ p. cc ((eq_iff a b).1 p)),
          ))
    ]
