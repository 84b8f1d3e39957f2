-- ===== src/Results/Totals.antt =====
-- What a builder holds after any sequence of calls.
use vitess_operator.Prelude.{
  ◌≡◌, refl, ap, ◌∙◌, ℕ, ◌<◌, Bool, true, false, ◌||◌, Option, none, some, ltb, nat_beq,
  if◌then◌else◌, List, [], ◌∷◌, All, arith,
}
use vitess_operator.Results.{Result, Builder, new, error, requeue, requeue_after, merge, result}

module _ (E : Type 0) where
  pub data Call : Type 0 where
    fail : E → Call
    at_once : Call
    after : ℕ → Call
    also : Result → Option E → Call

-- The earlier of two delays, where 0 stands for none.
abbrev sooner : ℕ → ℕ → ℕ
sooner a b = if nat_beq a 0 then b else if nat_beq b 0 then a else if ltb a b then a else b

sooner_assoc : (a b c : ℕ) → sooner (sooner a b) c ≡ sooner a (sooner b c)
sooner_assoc a b c = ground arith

module _ {E : Type 0} where
  unfoldable pub call : Call E → Builder E → Builder E
  unfolding error requeue requeue_after merge
  call (fail e) a = error e a
  call at_once a = requeue a
  call (after d) a = requeue_after d a
  call (also r e) a = merge r e a

  unfoldable pub run : List (Call E) → Builder E → Builder E
  run [] a = a
  run (c ∷ cs) a = run cs (call c a)

  -- The delay of a call of `RequeueAfter` is not 0.
  abbrev IsDelayed : Call E → Type 0
  IsDelayed (after d) = 0 < d
  IsDelayed _ = Unit

  abbrev immediate : Call E → Bool
  immediate at_once = true
  immediate (also r e) = r.requeue
  immediate _ = false

  abbrev pub delay : Call E → ℕ
  delay (after d) = d
  delay (also r e) = r.requeue_after
  delay _ = 0

  abbrev failure : Call E → Option E
  failure (fail e) = some e
  failure (also r e) = e
  failure _ = none

  abbrev any_immediate : List (Call E) → Bool
  any_immediate [] = false
  any_immediate (c ∷ cs) = immediate c || any_immediate cs

  abbrev soonest : List (Call E) → ℕ
  soonest [] = 0
  soonest (c ∷ cs) = sooner (delay c) (soonest cs)

  abbrev first_failure : List (Call E) → Option E
  first_failure [] = none
  first_failure (c ∷ cs) = elim (failure c) [ none ↦ first_failure cs | some e ↦ some e ]

  -- The totals of a builder that stood at `a` before the calls.
  abbrev expected : Builder E → List (Call E) → Builder E
  expected a cs = record {
    total =
        (let now = a.total.requeue || any_immediate cs in
          record {
            requeue = now;
            requeue_after = if now then 0 else sooner a.total.requeue_after (soonest cs);
          });
    first_err = elim a.first_err [ none ↦ first_failure cs | some e ↦ some e ];
  }

  -- An immediate requeue carries no delay.
  abbrev Settled : Builder E → Type 0
  Settled a = a.total.requeue ≡ true → a.total.requeue_after ≡ 0

  call-Settled : (c : Call E) (a : Builder E) → Settled a → Settled (call c a)
  unfolding call
  call-Settled (fail e) a h = h
  call-Settled at_once a h = ground arith
  call-Settled (after d) a h = ground arith
  call-Settled (also r none) a h = ground arith
  call-Settled (also r (some e)) a h = ground arith

  call_lem : (c : Call E) (a : Builder E) → IsDelayed c → Settled a → call c a ≡ expected a (c ∷ [])
  unfolding call
  call_lem (fail e) a d h = ground arith
  call_lem at_once a d h = ground arith
  call_lem (after n) a d h = ground arith
  call_lem (also r none) a d h = ground arith
  call_lem (also r (some e)) a d h = ground arith

  expected-cons :
      (c : Call E) (cs : List (Call E)) (a : Builder E)
      → Settled a
      → expected (expected a (c ∷ [])) cs ≡ expected a (c ∷ cs)
  expected-cons c cs a h = ground (
    arith,
    sooner_assoc a.total.requeue_after (delay c) (soonest cs),
    sooner_assoc a.total.requeue_after (delay c) 0,
  )

  run_lem :
      (cs : List (Call E)) (a : Builder E) → All IsDelayed cs → Settled a → run cs a ≡ expected a cs
  unfolding run
  run_lem [] a d h = ground arith
  run_lem (c ∷ cs) a d h =
      run_lem cs (call c a) d.1 (call-Settled c a h)
      ∙ ap (λ b. expected b cs) (call_lem c a d.0 h)
      ∙ expected-cons c cs a h

  -- After any calls on a new builder, where no `RequeueAfter` is given the delay 0: the error is
  -- the first one, an immediate requeue wins over every delay, and otherwise the soonest of the
  -- delays is kept, 0 if there is none.
  pub run-new_lem :
      (cs : List (Call E))
      → All IsDelayed cs
      → result (run cs new) ≡ (
        record {
          requeue = any_immediate cs;
          requeue_after = if any_immediate cs then 0 else soonest cs;
        },
        first_failure cs,
      )
  unfolding result
  run-new_lem cs d = ground (arith, run_lem cs new d (λ h. refl))
