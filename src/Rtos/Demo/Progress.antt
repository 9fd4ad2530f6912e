-- ===== src/Rtos/Demo/Progress.antt =====
-- With the tick, the demonstration can always go on to its end: a task that waits is released.
use takshaka.Base.{
  ℕ, zero, suc, ◌+◌, ◌-◌, ◌*◌, ◌≤◌, ◌<◌, ◌≡◌, ◌⊎◌, refl, ap, ◌∙◌, sym, subst, ◌==◌, leb, ltb, Bool,
  true, Bool-cases, inl, inr, some, ◌>>=◌, [], ◌∷◌, ◌++◌, length, arith,
}
use takshaka.Rtos.Kernel.{Kernel}
use takshaka.Rtos.Demo.Transcript.{numbers, length-numbers, gots, dones}
use takshaka.Rtos.Demo.{
  num_items, queue_len, pace, sent, Producer, sending, printing_sent, giving, calling_delay,
  delayed, deleted, Consumer, taking, took, printing_sem, receiving, received, printing_got,
  comparing, printing_done, passing, passed, World, next_item, producer_from, consumer_from, Step,
  by_producer, by_consumer, by_tick, Reachable,
}
use takshaka.Rtos.Demo.Invariant.{ProducerAt, ConsumerAt, sent_le, Inv}
use takshaka.Rtos.Demo.Reached.{Step-Inv, Reachable-Inv}
use takshaka.Rtos.Demo.Order.{receiving_item}

-- How many steps and ticks the producer has at most before it.
abbrev producer_weight : Producer → (now : ℕ) → ℕ
producer_weight (sending i) now = (9 - i) * 20
producer_weight (printing_sent i) now = (9 - i) * 20 - 1
producer_weight (giving i) now = (9 - i) * 20 - 2
producer_weight (calling_delay i) now = (9 - i) * 20 - 3
producer_weight (delayed i since) now = (9 - i) * 20 - 10 + (since + pace - now)
producer_weight deleted now = 0

-- How many steps the consumer has at most before it, with `c` items counted.
abbrev consumer_weight : Consumer → (c : ℕ) → ℕ
consumer_weight taking c = (8 - c) * 10 + 5
consumer_weight took c = (8 - c) * 10 + 4
consumer_weight printing_sem c = (8 - c) * 10 + 3
consumer_weight receiving c = (8 - c) * 10 + 2
consumer_weight (received rx) c = (8 - c) * 10 + 1
consumer_weight (printing_got rx) c = (8 - c) * 10 + 8
consumer_weight comparing c = (8 - c) * 10 + 7
consumer_weight printing_done c = 3
consumer_weight passing c = 2
consumer_weight passed c = 1

next_lighter :
    (i now : ℕ) → i ≤ num_items → producer_weight (next_item (i + 1)) now < (9 - i) * 20 - 10
next_lighter i now le = elim (Bool-cases (leb (i + 1) num_items)) [
  | inl more ↦ rw more (omega (arith, le))
  | inr last ↦ rw last (omega (arith, le))
]

module _ (K : Kernel queue_len num_items) where
  abbrev weight : World K → ℕ
  weight w = producer_weight w.producer (K.now w.kernel) + consumer_weight w.consumer w.g_consumed

  -- A step that has less before it.
  record Onward (w : World K) : Type 0 where
    after : World K
    step : Step K true w after
    less : weight after < weight w

  -- While the producer has not sent all, and the queue is empty, it can go on, or the tick can.
  producer-Onward :
      (pc : Producer) (w : World K) (s g : ℕ)
      → w.producer ≡ pc
      → ProducerAt pc s g
      → g < num_items
      → (s ≡ g → length (K.queue w.kernel) < queue_len)
      → Onward w
  unfolding producer_from
  producer-Onward (sending i) w s g here (is, all, le) few room =
      let (k, call) = K.can_send i w.kernel (room (sym all)) in
      let weighs = ap (λ (pc : Producer). producer_weight pc (K.now w.kernel)) here in
      record {
        after = record w { kernel = k; producer = printing_sent i };
        step = by_producer w _ (rw (here, producer_from, call, ◌>>=◌) refl);
        less = omega (arith, weighs, is, le);
      }
  producer-Onward (printing_sent i) w s g here (is, more, le) few room =
      let weighs = ap (λ (pc : Producer). producer_weight pc (K.now w.kernel)) here in
      record {
        after = record w { producer = giving i; out = w.out ++ sent i ∷ [] };
        step = by_producer w _ (rw (here, producer_from) refl);
        less = omega (arith, weighs, is, le);
      }
  producer-Onward (giving i) w s g here (is, more, le) few room =
      let weighs = ap (λ (pc : Producer). producer_weight pc (K.now w.kernel)) here in
      record {
        after = record w { kernel = K.give w.kernel; producer = calling_delay i };
        step = by_producer w _ (rw (here, producer_from) refl);
        less = omega (arith, weighs, is, le);
      }
  producer-Onward (calling_delay i) w s g here (is, all, le) few room =
      let weighs = ap (λ (pc : Producer). producer_weight pc (K.now w.kernel)) here in
      record {
        after = record w { producer = delayed i (K.now w.kernel) };
        step = by_producer w _ (rw (here, producer_from) refl);
        less = omega (arith, weighs, is, le);
      }
  producer-Onward (delayed i since) w s g here (is, all, le) few room =
      elim (Bool-cases (leb (since + pace) (K.now w.kernel))) [
        | inl over ↦
            let weighs = ap (λ (pc : Producer). producer_weight pc (K.now w.kernel)) here in
            record {
              after = record w { producer = next_item (i + 1) };
              step = by_producer w _ (rw (here, producer_from, over) refl);
              less =
                  omega (
                    arith,
                    weighs,
                    is,
                    le,
                    next_lighter i (K.now w.kernel) (omega (arith, is, le)),
                  );
            }
        | inr still ↦
            let weighs = ap (λ (pc : Producer). producer_weight pc (K.now w.kernel)) here in
            let weighs_ticked =
              ap (λ (pc : Producer). producer_weight pc (K.now (K.tick w.kernel))) here in
            let before : K.now w.kernel < since + pace = ground (arith, still) in
            record {
              after = record w { kernel = K.tick w.kernel };
              step = by_tick w refl;
              less = omega (arith, weighs, weighs_ticked, K.now_ticked w.kernel, before);
            }
      ]
  producer-Onward deleted w s g here (all, same, le) few room =
      absurd (omega (arith, all, same, few))

  by_take : (w : World K) (k : K.State) → w.consumer ≡ taking → K.take w.kernel ≡ some k → Onward w
  unfolding consumer_from
  by_take w k here call =
      let weighs = ap (λ (pc : Consumer). consumer_weight pc w.g_consumed) here in
      let same = ap (producer_weight w.producer) (K.now_taken w.kernel k call) in
      record {
        after = record w { kernel = k; consumer = took };
        step = by_consumer w _ (rw (here, consumer_from, call, ◌>>=◌) refl);
        less = omega (arith, weighs, same);
      }

  by_receive :
      (w : World K) (rx : ℕ) (k : K.State)
      → w.consumer ≡ receiving
      → K.receive w.kernel ≡ some (rx, k)
      → Onward w
  unfolding consumer_from
  by_receive w rx k here call =
      let weighs = ap (λ (pc : Consumer). consumer_weight pc w.g_consumed) here in
      let same = ap (producer_weight w.producer) (K.now_received rx w.kernel k call) in
      record {
        after = record w { kernel = k; consumer = received rx };
        step = by_consumer w _ (rw (here, consumer_from, call, ◌>>=◌) refl);
        less = omega (arith, weighs, same);
      }

  -- The consumer goes on without the kernel.
  by_itself :
      (w w' : World K) (pc : Consumer)
      → w.consumer ≡ pc
      → consumer_from K pc w ≡ some w'
      → producer_weight w'.producer (K.now w'.kernel) ≡ producer_weight w.producer (K.now w.kernel)
      → consumer_weight w'.consumer w'.g_consumed < consumer_weight pc w.g_consumed
      → Onward w
  by_itself w w' pc here step same less =
      let weighs = ap (λ (pc : Consumer). consumer_weight pc w.g_consumed) here in
      record {
        after = w';
        step =
            by_consumer w w'
              (subst (λ (pc : Consumer). consumer_from K pc w ≡ some w') (sym here) step);
        less = omega (arith, weighs, same, less);
      }

  -- Until the demonstration has passed, a step leads on.
  onward : (w : World K) → Inv K w → Onward w ⊎ (w.consumer ≡ passed)
  unfolding consumer_from
  onward w v = go w.consumer refl v.consumer_at
    where
      go :
          (pc : Consumer)
          → w.consumer ≡ pc
          → ConsumerAt pc v.t w.g_sem_taken v.r w.g_consumed v.p (dones w.out)
          → Onward w ⊎ (w.consumer ≡ passed)
      go taking here (t, m, r, p, d, less) = elim (Bool-cases (ltb 0 (K.count w.kernel))) [
        | inl some_signal ↦
            let (k, call) = K.can_take w.kernel (ground (arith, some_signal)) in
            inl (by_take w k here call)
        | inr no_signal ↦
            let none_left : K.count w.kernel ≡ 0 = ground (arith, no_signal) in
            inl (
              producer-Onward w.producer w v.s v.g refl v.producer_at
                (omega (arith, v.counted, none_left, t, less))
                (λ all. omega (
                  arith,
                  all,
                  v.counted,
                  none_left,
                  t,
                  r,
                  v.in_queue,
                  ap length v.queued,
                  length-numbers v.r v.waiting,
                )))
      ]
      go took here at = inl (by_itself w _ took here refl refl (omega arith))
      go printing_sem here at = inl (by_itself w _ printing_sem here refl refl (omega arith))
      go receiving here at =
          let (rx, k, call) = K.can_receive w.kernel (receiving_item K w v here) in
          inl (by_receive w rx k here call)
      go (received rx) here (t, m, r, p, d, is) = inl (
          by_itself w _ (received rx) here refl refl
            (omega (arith, r, v.in_queue, sent_le w.producer v.s v.g v.producer_at)))
      go (printing_got rx) here at =
          inl (by_itself w _ (printing_got rx) here refl refl (omega arith))
      go comparing here at = elim (Bool-cases (w.g_consumed == num_items)) [
        | inl all ↦ inl (
            by_itself w (record w { consumer = printing_done }) comparing here (rw all refl) refl
              (omega arith))
        | inr more ↦ inl (
            by_itself w (record w { consumer = taking }) comparing here (rw more refl) refl
              (omega arith))
      ]
      go printing_done here at = inl (by_itself w _ printing_done here refl refl (omega arith))
      go passing here at = inl (by_itself w _ passing here refl refl (omega arith))
      go passed here at = inr here

  -- Some steps of the system, none or more.
  pub data Run (timer : Bool) : World K → World K → Type 0 where
    stay : (w : World K) → Run timer w w
    go_on : (w w' w'' : World K) → Step K timer w w' → Run timer w' w'' → Run timer w w''

  -- A run leads to the end, with all items reported.
  pub record Passes (w : World K) : Type 0 where
    pub end : World K
    pub run : Run true w end
    pub passes : end.consumer ≡ passed
    pub all_reported : gots end.out ≡ numbers 0 num_items
    pub once : dones end.out ≡ 1

  Passes-within : (n : ℕ) (w : World K) → Inv K w → weight w < n → Passes w
  Passes-within zero w v less = absurd (omega (arith, less))
  Passes-within (suc n) w v less = elim (onward w v) [
    | inl o ↦
        let rest =
          Passes-within n o.after (Step-Inv K true w o.after o.step v)
            (omega (arith, less, o.less)) in
        record {
          end = rest.end;
          run = go_on w o.after rest.end o.step rest.run;
          passes = rest.passes;
          all_reported = rest.all_reported;
          once = rest.once;
        }
    | inr here ↦
        let (t, m, r, p, d, all) =
          subst
            (λ (pc : Consumer). ConsumerAt pc v.t w.g_sem_taken v.r w.g_consumed v.p (dones w.out))
            here v.consumer_at in
        record {
          end = w;
          run = stay w;
          passes = here;
          all_reported = v.reported ∙ ap (numbers 0) (p ∙ all);
          once = d;
        }
  ]

-- With the tick, from every reachable world a run of the system leads to a world in which the consumer
-- has called `sim_pass`, with the items 1 to 8 reported in order and the end reported once.
pub Reachable-Passes :
    (K : Kernel queue_len num_items) (w : World K) → Reachable K true w → Passes K w
Reachable-Passes K w path =
    Passes-within K (suc (weight K w)) w (Reachable-Inv K true w path) (omega arith)
