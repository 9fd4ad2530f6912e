-- ===== src/Rtos/Stress/Misses.antt =====
-- The shared counter of the misses: an update can be lost, but not the last one that is left.
use takshaka.Base.{
  ℕ, suc, ◌+◌, ◌%◌, ◌^◌, ◌≤◌, ◌≡◌, ◌⊎◌, refl, ap, subst, ltb, Bool, true, false, if◌then◌else◌,
  Bool-cases, Option-cases, inl, inr, some, ◌>>=◌, List, [], ◌∷◌, ◌++◌, arith,
}
use mathlib.Core.Option.{some-injective, none-ne-some}
use takshaka.Rtos.Timing.{minus32}
use takshaka.Rtos.Stress.{
  Scheduler, Report, deadline_miss, verdict, Periodic, starting, testing, reading, releasing,
  taking, working, giving, finishing, comparing, loading, storing, printing, calling_delay, delayed,
  ended, Task, Master, entering, waiting, evaluating, judging, finished, Shared, released, period,
  periodic_from, background_step, passes, master_from, Tasks, StressStep, by_high, by_low,
  by_master, by_background, by_tick, StressReachable, start, next,
}

abbrev pub misses_in : List Report → ℕ
misses_in [] = 0
misses_in (deadline_miss ∷ out) = suc (misses_in out)
misses_in (verdict pass ∷ out) = misses_in out

misses_in-append :
    (out more : List Report) → misses_in (out ++ more) ≡ misses_in out + misses_in more
misses_in-append [] more = omega arith
misses_in-append (deadline_miss ∷ out) more = omega (arith, misses_in-append out more)
misses_in-append (verdict pass ∷ out) more = misses_in-append out more

-- 1 where a task is to report a miss that it has counted.
abbrev pub pending : Periodic → ℕ
pending printing = 1
pending _ = 0

-- What a task has loaded from the counter, and is to store one more of.
abbrev pub loaded : Periodic → ℕ
loaded (storing value) = value
loaded _ = 0

module _ (S : Scheduler) where
  -- `p` and `q` are where the periodic tasks are.
  pub record Counted (p q : Periodic) (w : Shared S) : Type 0 where
    pub at_most : w.g_deadline_misses ≤ misses_in w.out + pending p + pending q
    pub p_loaded : loaded p ≤ misses_in w.out + pending p + pending q
    pub q_loaded : loaded q ≤ misses_in w.out + pending p + pending q
    pub seen : (misses_in w.out + pending p + pending q ≡ 0) ⊎ (1 ≤ w.g_deadline_misses)

  swap : (p q : Periodic) (w : Shared S) → Counted p q w → Counted q p w
  swap p q w v = record {
    at_most = omega (arith, v.at_most);
    p_loaded = omega (arith, v.q_loaded);
    q_loaded = omega (arith, v.p_loaded);
    seen = elim v.seen [ inl e ↦ inl (omega (arith, e)) | inr e ↦ inr e ];
  }

  -- A step that leaves the counter and what is reported and pending, and loads at most the counter.
  quiet :
      (p p' q : Periodic) (w w' : Shared S)
      → pending p' ≡ pending p
      → w'.g_deadline_misses ≡ w.g_deadline_misses
      → misses_in w'.out ≡ misses_in w.out
      → loaded p' ≤ w.g_deadline_misses
      → Counted p q w
      → Counted p' q w'
  quiet p p' q w w' same count lines load v = record {
    at_most = omega (arith, same, count, lines, v.at_most);
    p_loaded = omega (arith, same, lines, load, v.at_most);
    q_loaded = omega (arith, same, lines, v.q_loaded);
    seen = elim v.seen [
      | inl e ↦ inl (omega (arith, same, lines, e))
      | inr e ↦ inr (omega (arith, count, e))
    ];
  }

  released-misses :
      (high : Bool) (w : Shared S)
      → ((released S high w).g_deadline_misses ≡ w.g_deadline_misses)
        × ((released S high w).out ≡ w.out)
  released-misses true w = (refl, refl)
  released-misses false w = (refl, refl)

  stored :
      (value : ℕ) (q : Periodic) (w : Shared S)
      → Counted (storing value) q w
      → Counted printing q (record w { g_deadline_misses = value + 1 })
  stored value q w v = record {
    at_most = omega (arith, v.p_loaded);
    p_loaded = omega arith;
    q_loaded = omega (arith, v.q_loaded);
    seen = inr (omega arith);
  }

  printed :
      (q : Periodic) (w : Shared S)
      → Counted printing q w
      → Counted calling_delay q (record w { out = w.out ++ deadline_miss ∷ [] })
  printed q w v =
      let more = misses_in-append w.out (deadline_miss ∷ []) in
      record {
        at_most = omega (arith, more, v.at_most);
        p_loaded = omega arith;
        q_loaded = omega (arith, more, v.q_loaded);
        seen = elim v.seen [ inl e ↦ absurd (omega (arith, e)) | inr e ↦ inr e ];
      }

  abbrev At : Periodic → Task × Shared S → Type 0
  At q r = Counted r.0.at q r.1

  periodic-Counted :
      (high : Bool) (p q : Periodic) (t : ℕ) (w : Shared S) (t' : Task) (w' : Shared S)
      → periodic_from S high p t w ≡ some (t', w')
      → Counted p q w
      → Counted t'.at q w'
  unfolding periodic_from
  periodic-Counted high starting q t w t' w' step v =
      subst (At q) (some-injective _ (t', w') step) (quiet _ _ q w _ refl refl refl (omega arith) v)
  periodic-Counted high testing q t w t' w' step v =
      subst (At q) (some-injective _ (t', w') step) (onward w.g_stress_done)
    where
      onward : (over : Bool) → Counted (if over then ended else reading) q w
      onward true = quiet testing ended q w w refl refl refl (omega arith) v
      onward false = quiet testing reading q w w refl refl refl (omega arith) v
  periodic-Counted high reading q t w t' w' step v =
      subst (At q) (some-injective _ (t', w') step) (quiet _ _ q w _ refl refl refl (omega arith) v)
  periodic-Counted high (releasing r) q t w t' w' step v =
      subst (At q) (some-injective _ (t', w') step) (
        quiet (releasing r) (taking r) q w (released S high w) refl (released-misses high w).0
          (ap misses_in (released-misses high w).1) (omega arith) v)
  periodic-Counted high (taking r) q t w t' w' step v = elim (Option-cases (S.take w.kernel)) [
    | inl e ↦ absurd (none-ne-some (t', w') (rw (e, ◌>>=◌) at step))
    | inr (k, e) ↦
        subst (At q) (some-injective _ (t', w') (rw (e, ◌>>=◌) at step)) (
          quiet (taking r) (working r) q w (record w { kernel = k }) refl refl refl (omega arith) v)
  ]
  periodic-Counted high (working r) q t w t' w' step v =
      subst (At q) (some-injective _ (t', w') step) (quiet _ _ q w _ refl refl refl (omega arith) v)
  periodic-Counted high (giving r) q t w t' w' step v =
      subst (At q) (some-injective _ (t', w') step) (quiet _ _ q w _ refl refl refl (omega arith) v)
  periodic-Counted high (finishing r) q t w t' w' step v =
      subst (At q) (some-injective _ (t', w') step) (quiet _ _ q w _ refl refl refl (omega arith) v)
  periodic-Counted high (comparing r f) q t w t' w' step v =
      subst (At q) (some-injective _ (t', w') step) (onward (ltb (period S high) (minus32 f r)))
    where
      onward : (late : Bool) → Counted (if late then loading else calling_delay) q w
      onward true = quiet (comparing r f) loading q w w refl refl refl (omega arith) v
      onward false = quiet (comparing r f) calling_delay q w w refl refl refl (omega arith) v
  periodic-Counted high loading q t w t' w' step v =
      subst (At q) (some-injective _ (t', w') step)
        (quiet loading (storing w.g_deadline_misses) q w w refl refl refl (omega arith) v)
  periodic-Counted high (storing value) q t w t' w' step v =
      subst (At q) (some-injective _ (t', w') step) (stored value q w v)
  periodic-Counted high printing q t w t' w' step v =
      subst (At q) (some-injective _ (t', w') step) (printed q w v)
  periodic-Counted high calling_delay q t w t' w' step v =
      subst (At q) (some-injective _ (t', w') step) (quiet _ _ q w _ refl refl refl (omega arith) v)
  periodic-Counted high delayed q t w t' w' step v = elim (Bool-cases (S.delay_over t w.kernel)) [
    | inl over ↦
        subst (At q) (some-injective _ (t', w') (rw over at step))
          (quiet delayed testing q w w refl refl refl (omega arith) v)
    | inr still ↦ absurd (none-ne-some (t', w') (rw still at step))
  ]
  periodic-Counted high ended q t w t' w' step v = absurd (none-ne-some (t', w') step)

  -- What does not move the periodic tasks.
  beside :
      (p q : Periodic) (w w' : Shared S)
      → w'.g_deadline_misses ≡ w.g_deadline_misses
      → misses_in w'.out ≡ misses_in w.out
      → Counted p q w
      → Counted p q w'
  beside p q w w' count lines v = record {
    at_most = omega (arith, count, lines, v.at_most);
    p_loaded = omega (arith, lines, v.p_loaded);
    q_loaded = omega (arith, lines, v.q_loaded);
    seen = elim v.seen [
      | inl e ↦ inl (omega (arith, lines, e))
      | inr e ↦ inr (omega (arith, count, e))
    ];
  }

  abbrev Beside : Periodic → Periodic → Master × Shared S → Type 0
  Beside p q r = Counted p q r.1

  master-Counted :
      (overload : Bool) (m : Master) (p q : Periodic) (w : Shared S) (m' : Master) (w' : Shared S)
      → master_from S overload m w ≡ some (m', w')
      → Counted p q w
      → Counted p q w'
  unfolding master_from
  master-Counted overload entering p q w m' w' step v =
      subst (Beside p q) (some-injective _ (m', w') step) v
  master-Counted overload (waiting wake) p q w m' w' step v =
      elim (Bool-cases (S.delay_over wake w.kernel)) [
        | inl over ↦
            subst (Beside p q) (some-injective _ (m', w') (rw over at step))
              (beside p q w (record w { g_stress_done = true }) refl refl v)
        | inr still ↦ absurd (none-ne-some (m', w') (rw still at step))
      ]
  master-Counted overload evaluating p q w m' w' step v =
      subst (Beside p q) (some-injective _ (m', w') step) v
  master-Counted overload (judging pass) p q w m' w' step v =
      subst (Beside p q) (some-injective _ (m', w') step) (
        beside p q w (record w { out = w.out ++ verdict pass ∷ [] }) refl
          (omega (arith, misses_in-append w.out (verdict pass ∷ []))) v)
  master-Counted overload finished p q w m' w' step v = absurd (none-ne-some (m', w') step)

  background-Counted :
      (p q : Periodic) (w : Shared S) → Counted p q w → Counted p q (background_step S w)
  background-Counted p q w v =
      elim w.g_stress_done as (λ over. Counted p q (if over then w else counted)) [
        | true ↦ v
        | false ↦ beside p q w counted refl refl v
      ]
    where
      counted : Shared S
      counted = record w { g_bg_counter = (w.g_bg_counter + 1) % 2 ^ 32 }

  StressReachable-Counted :
      (overload : Bool) (w : Tasks S)
      → StressReachable S overload w
      → Counted w.high.at w.low.at w.shared
  StressReachable-Counted overload w start = record {
    at_most = omega arith;
    p_loaded = omega arith;
    q_loaded = omega arith;
    seen = inl (omega arith);
  }
  StressReachable-Counted overload w (next from _ path step) =
      go w step (StressReachable-Counted overload from path)
    where
      go :
          (w : Tasks S)
          → StressStep S overload from w
          → Counted from.high.at from.low.at from.shared
          → Counted w.high.at w.low.at w.shared
      go w (by_high _ t s step) v =
          periodic-Counted true from.high.at from.low.at from.high.next_wake from.shared t s step v
      go w (by_low _ t s step) v = swap t.at from.high.at s (
          periodic-Counted false from.low.at from.high.at from.low.next_wake from.shared t s step
            (swap from.high.at from.low.at from.shared v))
      go w (by_master _ m s step) v =
          master-Counted overload from.master from.high.at from.low.at from.shared m s step v
      go w (by_background _) v = background-Counted from.high.at from.low.at from.shared v
      go w (by_tick _) v = beside from.high.at from.low.at from.shared _ refl refl v

-- What a verdict that passes stands on: no miss is reported and the releases are enough, or, in the build
-- with the overload, a miss is reported or about to be.
abbrev pub Justified : {S : Scheduler} (overload : Bool) → Tasks S → Type 0
Justified false w =
    (misses_in w.shared.out ≡ 0) × (6 ≤ w.shared.g_t1_releases) × (2 ≤ w.shared.g_t2_releases)
Justified true w = 1 ≤ misses_in w.shared.out + pending w.high.at + pending w.low.at

-- In every reachable world, under any interleaving, also where two tasks increment the counter at once
-- and an update is lost: if the master passes the test there, no miss is reported and the tasks have had
-- 6 and 2 releases; if it passes the test with the overload, a miss is reported or about to be.
pub passes-Justified :
    (S : Scheduler) (overload : Bool) (w : Tasks S)
    → StressReachable S overload w
    → passes S overload w.shared ≡ true
    → Justified overload w
passes-Justified S overload w path pass =
    go overload pass (StressReachable-Counted S overload w path)
  where
    go :
        (overload : Bool)
        → passes S overload w.shared ≡ true
        → Counted S w.high.at w.low.at w.shared
        → Justified overload w
    go true pass v = ground (arith, pass, v.at_most)
    go false pass v =
        let none_counted : w.shared.g_deadline_misses ≡ 0 = ground (arith, pass) in
        (
          elim v.seen [
            | inl e ↦ omega (arith, e)
            | inr e ↦ absurd (omega (arith, e, none_counted))
          ],
          ground (arith, pass),
          ground (arith, pass),
        )
