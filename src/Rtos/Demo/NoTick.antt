-- ===== src/Rtos/Demo/NoTick.antt =====
-- The negative control of rtos/app/main.c: with no tick, `vTaskDelay` does not return.
use takshaka.Base.{
  ℕ, ◌+◌, ◌≤◌, ◌<◌, ◌≡◌, ◌⊎◌, refl, ap, sym, subst, ◌==◌, leb, ltb, false, Bool-cases, inl, inr,
  Option-cases, some, ◌>>=◌, length, arith,
}
use mathlib.Core.Option.{some-injective, none-ne-some}
use takshaka.Rtos.Kernel.{Kernel}
use takshaka.Rtos.Demo.Transcript.{length-numbers, gots, dones}
use takshaka.Rtos.Demo.{
  num_items, queue_len, pace, Producer, sending, printing_sent, giving, calling_delay, delayed,
  deleted, Consumer, taking, took, printing_sem, receiving, received, printing_got, comparing,
  printing_done, passing, passed, Worker, starting, spinning, sampled, World, producer_from,
  consumer_from, worker_from, main, Step, by_producer, by_consumer, by_worker, by_tick, Reachable,
  start, next,
}
use takshaka.Rtos.Demo.Invariant.{ProducerAt}
use takshaka.Rtos.Demo.Order.{reported_bound, end_of}
use takshaka.Rtos.Demo.Reached.{Reachable-Inv}

-- The producer is at its first item, and waits since the time that it still is.
abbrev AtFirst : Producer → (now : ℕ) → Type 0
AtFirst (sending i) now = i ≡ 1
AtFirst (printing_sent i) now = i ≡ 1
AtFirst (giving i) now = i ≡ 1
AtFirst (calling_delay i) now = i ≡ 1
AtFirst (delayed i since) now = (i ≡ 1) × (since ≡ now)
AtFirst deleted now = now < now

module _ (K : Kernel queue_len num_items) where
  abbrev Stalled : World K → Type 0
  Stalled w = AtFirst w.producer (K.now w.kernel)

  -- A call of the consumer leaves the time.
  same_time : (pc : Producer) (now now' : ℕ) → now' ≡ now → AtFirst pc now → AtFirst pc now'
  same_time pc now now' e = subst (AtFirst pc) (sym e)

  producer-Stalled :
      (pc : Producer) (w w' : World K)
      → producer_from K pc w ≡ some w'
      → AtFirst pc (K.now w.kernel)
      → Stalled w'
  unfolding producer_from
  producer-Stalled (sending i) w w' step at = elim (Option-cases (K.send i w.kernel)) [
    | inl e ↦ absurd (none-ne-some w' (rw (e, ◌>>=◌) at step))
    | inr (k, e) ↦ subst Stalled (some-injective _ w' (rw (e, ◌>>=◌) at step)) at
  ]
  producer-Stalled (printing_sent i) w w' step at = subst Stalled (some-injective _ w' step) at
  producer-Stalled (giving i) w w' step at = subst Stalled (some-injective _ w' step) at
  producer-Stalled (calling_delay i) w w' step at =
      subst Stalled (some-injective _ w' step) (at, refl)
  producer-Stalled (delayed i since) w w' step (at, same) =
      let still : leb (since + pace) (K.now w.kernel) ≡ false = ground (arith, same) in
      absurd (none-ne-some w' (rw still at step))
  producer-Stalled deleted w w' step at = absurd (none-ne-some w' step)

  consumer-Stalled :
      (pc : Consumer) (w w' : World K) → consumer_from K pc w ≡ some w' → Stalled w → Stalled w'
  unfolding consumer_from
  consumer-Stalled taking w w' step at = elim (Option-cases (K.take w.kernel)) [
    | inl e ↦ absurd (none-ne-some w' (rw (e, ◌>>=◌) at step))
    | inr (k, e) ↦
        subst Stalled (some-injective _ w' (rw (e, ◌>>=◌) at step))
          (same_time w.producer (K.now w.kernel) (K.now k) (K.now_taken w.kernel k e) at)
  ]
  consumer-Stalled took w w' step at = subst Stalled (some-injective _ w' step) at
  consumer-Stalled printing_sem w w' step at = subst Stalled (some-injective _ w' step) at
  consumer-Stalled receiving w w' step at = elim (Option-cases (K.receive w.kernel)) [
    | inl e ↦ absurd (none-ne-some w' (rw (e, ◌>>=◌) at step))
    | inr ((rx, k), e) ↦
        subst Stalled (some-injective _ w' (rw (e, ◌>>=◌) at step))
          (same_time w.producer (K.now w.kernel) (K.now k) (K.now_received rx w.kernel k e) at)
  ]
  consumer-Stalled (received rx) w w' step at = subst Stalled (some-injective _ w' step) at
  consumer-Stalled (printing_got rx) w w' step at = subst Stalled (some-injective _ w' step) at
  consumer-Stalled comparing w w' step at = subst Stalled (some-injective _ w' step) at
  consumer-Stalled printing_done w w' step at = subst Stalled (some-injective _ w' step) at
  consumer-Stalled passing w w' step at = subst Stalled (some-injective _ w' step) at
  consumer-Stalled passed w w' step at = absurd (none-ne-some w' step)

  worker-Stalled : (pc : Worker) (w : World K) → Stalled w → Stalled (worker_from K pc w)
  unfolding worker_from
  worker-Stalled starting w at = at
  worker-Stalled (spinning last reports) w at = at
  worker-Stalled (sampled last reports now) w at = elim (Bool-cases (now == last)) [
    | inl same ↦ rw same at
    | inr new ↦ elim (Bool-cases (ltb reports 6)) [
      | inl more ↦ rw (new, more) at
      | inr enough ↦ rw (new, enough) at
    ]
  ]

  Reachable-Stalled : (w : World K) → Reachable K false w → Stalled w
  unfolding main
  Reachable-Stalled w start = refl
  Reachable-Stalled w (next from _ path step) = go w step (Reachable-Stalled from path)
    where
      go : (w : World K) → Step K false from w → Stalled from → Stalled w
      go w (by_producer _ _ step) at = producer-Stalled from.producer from w step at
      go w (by_consumer _ _ step) at = consumer-Stalled from.consumer from w step at
      go w (by_worker _) at = worker-Stalled from.worker from at
      go w (by_tick _ on) at = absurd (cc on)

first_only : (pc : Producer) (now s g : ℕ) → AtFirst pc now → ProducerAt pc s g → s ≤ 1
first_only (sending i) now s g one (is, all, le) = omega (arith, one, is)
first_only (printing_sent i) now s g one (is, all, le) = omega (arith, one, is)
first_only (giving i) now s g one (is, all, le) = omega (arith, one, is)
first_only (calling_delay i) now s g one (is, all, le) = omega (arith, one, is)
first_only (delayed i since) now s g (one, same) (is, all, le) = omega (arith, one, is)
first_only deleted now s g none_of_it end = absurd (omega (arith, none_of_it))

not_ended : (p d : ℕ) → p ≤ 1 → (d ≡ 0) ⊎ ((d ≡ 1) × (p ≡ num_items)) → d ≡ 0
not_ended p d few (inl e) = e
not_ended p d few (inr (once, all)) = absurd (omega (arith, few, all))

-- Without the tick, in every reachable world, the consumer has reported at most one item, and the
-- transcript does not say that the demonstration is finished.
pub Reachable-no_tick :
    (K : Kernel queue_len num_items) (w : World K)
    → Reachable K false w
    → (length (gots w.out) ≤ 1) × (dones w.out ≡ 0)
Reachable-no_tick K w path =
    let v = Reachable-Inv K false w path in
    let few : v.p ≤ 1 = omega (
      arith,
      v.in_queue,
      reported_bound w.consumer v.t w.g_sem_taken v.r w.g_consumed v.p (dones w.out) v.consumer_at,
      first_only w.producer (K.now w.kernel) v.s v.g (Reachable-Stalled K w path) v.producer_at,
    ) in
    (
      omega (arith, few, ap length v.reported, length-numbers 0 v.p),
      not_ended v.p (dones w.out) few
          (end_of w.consumer v.t w.g_sem_taken v.r w.g_consumed v.p (dones w.out) v.consumer_at),
    )
