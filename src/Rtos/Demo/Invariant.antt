-- ===== src/Rtos/Demo/Invariant.antt =====
-- What every reachable world of the demonstration keeps: the queue holds the items that are sent and not
-- received, the semaphore counts the items that are signalled and not taken.
use takshaka.Base.{
  ℕ, suc, ◌+◌, ◌≤◌, ◌<◌, ◌≡◌, refl, ap, ◌∙◌, sym, subst, leb, Bool, true, false, Bool-cases, inl,
  inr, Option-cases, some, ◌>>=◌, List, [], ◌∷◌, ◌++◌, arith, append-nil,
}
use mathlib.Core.Option.{some-injective, none-ne-some}
use takshaka.Rtos.Kernel.{Kernel}
use takshaka.Rtos.Demo.Transcript.{numbers, numbers_snoc, gots, dones, gots-append, dones-append}
use takshaka.Rtos.Demo.{
  num_items, queue_len, pace, Line, sent, Producer, sending, printing_sent, giving, calling_delay,
  delayed, deleted, Consumer, taking, took, printing_sem, receiving, received, printing_got,
  comparing, printing_done, passing, passed, World, next_item, producer_from, main,
}

-- Where the producer is: `s` items are sent, and `g` are signalled.
abbrev pub ProducerAt : Producer → (s g : ℕ) → Type 0
ProducerAt (sending i) s g = (i ≡ suc s) × (g ≡ s) × (s < num_items)
ProducerAt (printing_sent i) s g = (i ≡ s) × (s ≡ suc g) × (s ≤ num_items)
ProducerAt (giving i) s g = (i ≡ s) × (s ≡ suc g) × (s ≤ num_items)
ProducerAt (calling_delay i) s g = (i ≡ s) × (g ≡ s) × (s ≤ num_items)
ProducerAt (delayed i since) s g = (i ≡ s) × (g ≡ s) × (s ≤ num_items)
ProducerAt deleted s g = (s ≡ num_items) × (g ≡ s) × (s ≤ num_items)

-- Where the consumer is: `t` signals are taken and `m` of them counted, `r` items are received, `c` of
-- them counted and `p` of them reported, and `d` is 1 behind the last line.
abbrev pub ConsumerAt : Consumer → (t m r c p d : ℕ) → Type 0
ConsumerAt taking t m r c p d = (t ≡ c) × (m ≡ c) × (r ≡ c) × (p ≡ c) × (d ≡ 0) × (c < num_items)
ConsumerAt took t m r c p d = (t ≡ suc c) × (m ≡ c) × (r ≡ c) × (p ≡ c) × (d ≡ 0) × (c < num_items)
ConsumerAt printing_sem t m r c p d =
    (t ≡ suc c) × (m ≡ suc c) × (r ≡ c) × (p ≡ c) × (d ≡ 0) × (c < num_items)
ConsumerAt receiving t m r c p d =
    (t ≡ suc c) × (m ≡ suc c) × (r ≡ c) × (p ≡ c) × (d ≡ 0) × (c < num_items)
ConsumerAt (received rx) t m r c p d =
    (t ≡ suc c) × (m ≡ suc c) × (r ≡ suc c) × (p ≡ c) × (d ≡ 0) × (rx ≡ r)
ConsumerAt (printing_got rx) t m r c p d =
    (t ≡ c) × (m ≡ c) × (r ≡ c) × (c ≡ suc p) × (d ≡ 0) × (rx ≡ r)
ConsumerAt comparing t m r c p d = (t ≡ c) × (m ≡ c) × (r ≡ c) × (p ≡ c) × (d ≡ 0) × (c ≤ num_items)
ConsumerAt printing_done t m r c p d =
    (t ≡ c) × (m ≡ c) × (r ≡ c) × (p ≡ c) × (d ≡ 0) × (c ≡ num_items)
ConsumerAt passing t m r c p d = (t ≡ c) × (m ≡ c) × (r ≡ c) × (p ≡ c) × (d ≡ 1) × (c ≡ num_items)
ConsumerAt passed t m r c p d = (t ≡ c) × (m ≡ c) × (r ≡ c) × (p ≡ c) × (d ≡ 1) × (c ≡ num_items)

pub sent_le : (pc : Producer) (s g : ℕ) → ProducerAt pc s g → s ≤ num_items
sent_le (sending i) s g (is, all, le) = omega (arith, le)
sent_le (printing_sent i) s g (is, more, le) = le
sent_le (giving i) s g (is, more, le) = le
sent_le (calling_delay i) s g (is, all, le) = le
sent_le (delayed i since) s g (is, all, le) = le
sent_le deleted s g (is, all, le) = le

module _ (K : Kernel queue_len num_items) where
  -- `s`, `g`, `t` and `r` are what is sent, signalled, taken and received, and `p` what is reported.
  pub record Inv (w : World K) : Type 0 where
    pub s : ℕ
    pub g : ℕ
    pub t : ℕ
    pub r : ℕ
    pub p : ℕ
    pub waiting : ℕ
    pub producer_at : ProducerAt w.producer s g
    pub consumer_at : ConsumerAt w.consumer t w.g_sem_taken r w.g_consumed p (dones w.out)
    pub queued : K.queue w.kernel ≡ numbers r waiting
    pub in_queue : s ≡ r + waiting
    pub counted : g ≡ t + K.count w.kernel
    pub reported : gots w.out ≡ numbers 0 p

  pub main-Inv : (timer : Bool) → Inv (main K timer)
  unfolding main
  main-Inv true = record {
    s = 0;
    g = 0;
    t = 0;
    r = 0;
    p = 0;
    waiting = 0;
    producer_at = (omega arith, omega arith, omega arith);
    consumer_at = (refl, refl, refl, refl, refl, omega arith);
    queued = K.queue_created;
    in_queue = omega arith;
    counted = omega (arith, K.count_created);
    reported = refl;
  }
  main-Inv false = record {
    s = 0;
    g = 0;
    t = 0;
    r = 0;
    p = 0;
    waiting = 0;
    producer_at = (omega arith, omega arith, omega arith);
    consumer_at = (refl, refl, refl, refl, refl, omega arith);
    queued = K.queue_created;
    in_queue = omega arith;
    counted = omega (arith, K.count_created);
    reported = refl;
  }

  sending-Inv :
      (i : ℕ) (w : World K) (k : K.State)
      → w.producer ≡ sending i
      → K.send i w.kernel ≡ some k
      → Inv w
      → Inv (record w { kernel = k; producer = printing_sent i })
  sending-Inv i w k here call v =
      let (is, all, less) = subst (λ (pc : Producer). ProducerAt pc v.s v.g) here v.producer_at in
      record {
        s = suc v.s;
        g = v.g;
        t = v.t;
        r = v.r;
        p = v.p;
        waiting = suc v.waiting;
        producer_at = (is, ap suc (sym all), less);
        consumer_at = v.consumer_at;
        queued =
            K.queue_sent i w.kernel k call
            ∙ ap (λ (vs : List ℕ). vs ++ i ∷ []) v.queued
            ∙ numbers_snoc v.r v.waiting i (omega (arith, is, v.in_queue));
        in_queue = omega (arith, v.in_queue);
        counted = omega (arith, v.counted, K.count_sent i w.kernel k call);
        reported = v.reported;
      }

  giving-Inv :
      (i : ℕ) (w : World K)
      → w.producer ≡ giving i
      → Inv w
      → Inv (record w { kernel = K.give w.kernel; producer = calling_delay i })
  giving-Inv i w here v =
      let (is, more, le) = subst (λ (pc : Producer). ProducerAt pc v.s v.g) here v.producer_at in
      record {
        s = v.s;
        g = v.s;
        t = v.t;
        r = v.r;
        p = v.p;
        waiting = v.waiting;
        producer_at = (is, refl, le);
        consumer_at = v.consumer_at;
        queued = K.queue_given w.kernel ∙ v.queued;
        in_queue = v.in_queue;
        counted =
            omega
              (arith, v.counted, more, K.count_given w.kernel (omega (arith, v.counted, more, le)));
        reported = v.reported;
      }

  -- What does not touch the kernel or the consumer.
  pub moved-Inv :
      (pc : Producer) (w : World K) (v : Inv w)
      → ProducerAt pc v.s v.g
      → Inv (record w { producer = pc })
  moved-Inv pc w v here = record {
    s = v.s;
    g = v.g;
    t = v.t;
    r = v.r;
    p = v.p;
    waiting = v.waiting;
    producer_at = here;
    consumer_at = v.consumer_at;
    queued = v.queued;
    in_queue = v.in_queue;
    counted = v.counted;
    reported = v.reported;
  }

  -- A line that is not the consumer's.
  pub print-Inv :
      (line : Line) (w : World K)
      → gots (line ∷ []) ≡ []
      → dones (line ∷ []) ≡ 0
      → Inv w
      → Inv (record w { out = w.out ++ line ∷ [] })
  print-Inv line w no_got no_done v = record {
    s = v.s;
    g = v.g;
    t = v.t;
    r = v.r;
    p = v.p;
    waiting = v.waiting;
    producer_at = v.producer_at;
    consumer_at =
        subst (λ (d : ℕ). ConsumerAt w.consumer v.t w.g_sem_taken v.r w.g_consumed v.p d)
          (omega (arith, dones-append w.out (line ∷ []), no_done)) v.consumer_at;
    queued = v.queued;
    in_queue = v.in_queue;
    counted = v.counted;
    reported =
        gots-append w.out (line ∷ [])
        ∙ ap (λ (vs : List ℕ). gots w.out ++ vs) no_got
        ∙ append-nil (gots w.out)
        ∙ v.reported;
  }

  next_item-At : (i s : ℕ) → i ≡ s → s ≤ num_items → ProducerAt (next_item (i + 1)) s s
  next_item-At i s is le = elim (Bool-cases (leb (i + 1) num_items)) [
    | inl more ↦ rw more (omega (arith, is), refl, ground (arith, is, more))
    | inr last ↦ rw last (ground (arith, is, last, le), refl, le)
  ]

  pub producer-Inv :
      (pc : Producer) (w w' : World K)
      → w.producer ≡ pc
      → producer_from K pc w ≡ some w'
      → Inv w
      → Inv w'
  unfolding producer_from
  producer-Inv (sending i) w w' here step v = elim (Option-cases (K.send i w.kernel)) [
    | inl e ↦ absurd (none-ne-some w' (rw (e, ◌>>=◌) at step))
    | inr (k, e) ↦
        subst Inv (some-injective _ w' (rw (e, ◌>>=◌) at step)) (sending-Inv i w k here e v)
  ]
  producer-Inv (printing_sent i) w w' here step v = subst Inv (some-injective _ w' step) (
      print-Inv (sent i) (record w { producer = giving i }) refl refl
        (moved-Inv (giving i) w v
          (subst (λ (pc : Producer). ProducerAt pc v.s v.g) here v.producer_at)))
  producer-Inv (giving i) w w' here step v =
      subst Inv (some-injective _ w' step) (giving-Inv i w here v)
  producer-Inv (calling_delay i) w w' here step v = subst Inv (some-injective _ w' step) (
      moved-Inv (delayed i (K.now w.kernel)) w v
        (subst (λ (pc : Producer). ProducerAt pc v.s v.g) here v.producer_at))
  producer-Inv (delayed i since) w w' here step v =
      elim (Bool-cases (leb (since + pace) (K.now w.kernel))) [
        | inl over ↦
            let (is, all, le) =
              subst (λ (pc : Producer). ProducerAt pc v.s v.g) here v.producer_at in
            subst Inv (some-injective _ w' (rw over at step)) (
              moved-Inv (next_item (i + 1)) w v
                (subst (ProducerAt (next_item (i + 1)) v.s) (sym all) (next_item-At i v.s is le)))
        | inr still ↦ absurd (none-ne-some w' (rw still at step))
      ]
  producer-Inv deleted w w' here step v = absurd (none-ne-some w' step)
