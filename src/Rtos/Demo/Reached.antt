-- ===== src/Rtos/Demo/Reached.antt =====
-- The consumer's steps, the worker's and the timer's keep the invariant, so every reachable world has it.
use takshaka.Base.{
  ℕ, suc, ◌+◌, ◌≡◌, refl, ap, ◌∙◌, sym, subst, ◌==◌, ltb, Bool, Bool-cases, inl, inr, Option-cases,
  some, ◌>>=◌, List, [], ◌∷◌, ◌++◌, arith, append-nil,
}
use mathlib.Core.Option.{some-injective, none-ne-some}
use takshaka.Rtos.Kernel.{Kernel}
use takshaka.Rtos.Demo.Transcript.{numbers_snoc, gots, dones, gots-append, dones-append, front_item}
use takshaka.Rtos.Demo.{
  num_items, queue_len, sem, got, done_ok, worker_run, Consumer, taking, took, printing_sem,
  receiving, received, printing_got, comparing, printing_done, passing, passed, Worker, starting,
  spinning, sampled, World, consumer_from, worker_from, Step, by_producer, by_consumer, by_worker,
  by_tick, Reachable, start, next,
}
use takshaka.Rtos.Demo.Invariant.{ConsumerAt, sent_le, Inv, main-Inv, print-Inv, producer-Inv}

module _ (K : Kernel queue_len num_items) where
  -- The consumer alone moves on, with the counters that it writes.
  consumer_moved-Inv :
      (pc : Consumer) (w : World K) (v : Inv K w) (m c : ℕ)
      → ConsumerAt pc v.t m v.r c v.p (dones w.out)
      → Inv K (record w { consumer = pc; g_sem_taken = m; g_consumed = c })
  consumer_moved-Inv pc w v m c here = record {
    s = v.s;
    g = v.g;
    t = v.t;
    r = v.r;
    p = v.p;
    waiting = v.waiting;
    producer_at = v.producer_at;
    consumer_at = here;
    queued = v.queued;
    in_queue = v.in_queue;
    counted = v.counted;
    reported = v.reported;
  }

  taking-Inv :
      (w : World K) (k : K.State)
      → w.consumer ≡ taking
      → K.take w.kernel ≡ some k
      → Inv K w
      → Inv K (record w { kernel = k; consumer = took })
  taking-Inv w k here call v =
      let (t, m, r, p, d, less) =
        subst
          (λ (pc : Consumer). ConsumerAt pc v.t w.g_sem_taken v.r w.g_consumed v.p (dones w.out))
          here v.consumer_at in
      record {
        s = v.s;
        g = v.g;
        t = suc v.t;
        r = v.r;
        p = v.p;
        waiting = v.waiting;
        producer_at = v.producer_at;
        consumer_at = (ap suc t, m, r, p, d, less);
        queued = K.queue_taken w.kernel k call ∙ v.queued;
        in_queue = v.in_queue;
        counted = omega (arith, v.counted, K.count_taken w.kernel k call);
        reported = v.reported;
      }

  receiving-Inv :
      (rx : ℕ) (w : World K) (k : K.State)
      → w.consumer ≡ receiving
      → K.receive w.kernel ≡ some (rx, k)
      → Inv K w
      → Inv K (record w { kernel = k; consumer = received rx })
  receiving-Inv rx w k here call v =
      let (t, m, r, p, d, less) =
        subst
          (λ (pc : Consumer). ConsumerAt pc v.t w.g_sem_taken v.r w.g_consumed v.p (dones w.out))
          here v.consumer_at in
      let (rest, one, is, tail) =
        front_item v.r v.waiting rx (K.queue k)
          (sym v.queued ∙ K.queue_received rx w.kernel k call) in
      record {
        s = v.s;
        g = v.g;
        t = v.t;
        r = suc v.r;
        p = v.p;
        waiting = rest;
        producer_at = v.producer_at;
        consumer_at = (t, m, ap suc r, p, d, is);
        queued = tail;
        in_queue = omega (arith, v.in_queue, one);
        counted = omega (arith, v.counted, K.count_received rx w.kernel k call);
        reported = v.reported;
      }

  printing_got-Inv :
      (rx : ℕ) (w : World K)
      → w.consumer ≡ printing_got rx
      → Inv K w
      → Inv K (record w { consumer = comparing; out = w.out ++ got rx ∷ [] })
  printing_got-Inv rx w here v =
      let (t, m, r, p, d, is) =
        subst
          (λ (pc : Consumer). ConsumerAt pc v.t w.g_sem_taken v.r w.g_consumed v.p (dones w.out))
          here v.consumer_at in
      record {
        s = v.s;
        g = v.g;
        t = v.t;
        r = v.r;
        p = suc v.p;
        waiting = v.waiting;
        producer_at = v.producer_at;
        consumer_at = (
          t,
          m,
          r,
          sym p,
          omega (arith, dones-append w.out (got rx ∷ []), d),
          omega (arith, r, v.in_queue, sent_le w.producer v.s v.g v.producer_at),
        );
        queued = v.queued;
        in_queue = v.in_queue;
        counted = v.counted;
        reported =
            gots-append w.out (got rx ∷ [])
            ∙ ap (λ (vs : List ℕ). vs ++ rx ∷ []) v.reported
            ∙ numbers_snoc 0 v.p rx (omega (arith, is, r, p));
      }

  printing_done-Inv :
      (w : World K) (v : Inv K w)
      → ConsumerAt passing v.t w.g_sem_taken v.r w.g_consumed v.p (dones (w.out ++ done_ok ∷ []))
      → Inv K (record w { consumer = passing; out = w.out ++ done_ok ∷ [] })
  printing_done-Inv w v here = record {
    s = v.s;
    g = v.g;
    t = v.t;
    r = v.r;
    p = v.p;
    waiting = v.waiting;
    producer_at = v.producer_at;
    consumer_at = here;
    queued = v.queued;
    in_queue = v.in_queue;
    counted = v.counted;
    reported = gots-append w.out (done_ok ∷ []) ∙ append-nil (gots w.out) ∙ v.reported;
  }

  consumer-Inv :
      (pc : Consumer) (w w' : World K)
      → w.consumer ≡ pc
      → consumer_from K pc w ≡ some w'
      → Inv K w
      → Inv K w'
  unfolding consumer_from
  consumer-Inv pc w w' here step v =
      go pc step
        (subst
          (λ (pc : Consumer). ConsumerAt pc v.t w.g_sem_taken v.r w.g_consumed v.p (dones w.out))
          here v.consumer_at)
        here
    where
      go :
          (pc : Consumer)
          → consumer_from K pc w ≡ some w'
          → ConsumerAt pc v.t w.g_sem_taken v.r w.g_consumed v.p (dones w.out)
          → w.consumer ≡ pc
          → Inv K w'
      go taking step _ here = elim (Option-cases (K.take w.kernel)) [
        | inl e ↦ absurd (none-ne-some w' (rw (e, ◌>>=◌) at step))
        | inr (k, e) ↦
            subst (Inv K) (some-injective _ w' (rw (e, ◌>>=◌) at step)) (taking-Inv w k here e v)
      ]
      go took step (t, m, r, p, d, less) here = subst (Inv K) (some-injective _ w' step) (
          consumer_moved-Inv printing_sem w v (w.g_sem_taken + 1) w.g_consumed
            (t, omega (arith, m), r, p, d, less))
      go printing_sem step at here = subst (Inv K) (some-injective _ w' step) (
          print-Inv K sem (record w { consumer = receiving }) refl refl
            (consumer_moved-Inv receiving w v w.g_sem_taken w.g_consumed at))
      go receiving step _ here = elim (Option-cases (K.receive w.kernel)) [
        | inl e ↦ absurd (none-ne-some w' (rw (e, ◌>>=◌) at step))
        | inr ((rx, k), e) ↦
            subst (Inv K) (some-injective _ w' (rw (e, ◌>>=◌) at step))
              (receiving-Inv rx w k here e v)
      ]
      go (received rx) step (t, m, r, p, d, is) here = subst (Inv K) (some-injective _ w' step) (
          consumer_moved-Inv (printing_got rx) w v w.g_sem_taken (w.g_consumed + 1)
            (omega (arith, t), omega (arith, m), omega (arith, r), omega (arith, p), d, is))
      go (printing_got rx) step _ here =
          subst (Inv K) (some-injective _ w' step) (printing_got-Inv rx w here v)
      go comparing step (t, m, r, p, d, le) here = elim (Bool-cases (w.g_consumed == num_items)) [
        | inl all ↦ subst (Inv K) (some-injective _ w' (rw all at step)) (
            consumer_moved-Inv printing_done w v w.g_sem_taken w.g_consumed
              (t, m, r, p, d, ground (arith, all)))
        | inr more ↦ subst (Inv K) (some-injective _ w' (rw more at step)) (
            consumer_moved-Inv taking w v w.g_sem_taken w.g_consumed
              (t, m, r, p, d, ground (arith, more, le)))
      ]
      go printing_done step (t, m, r, p, d, all) here = subst (Inv K) (some-injective _ w' step) (
          printing_done-Inv w v
            (t, m, r, p, omega (arith, d, dones-append w.out (done_ok ∷ [])), all))
      go passing step at here =
          subst (Inv K) (some-injective _ w' step)
            (consumer_moved-Inv passed w v w.g_sem_taken w.g_consumed at)
      go passed step _ here = absurd (none-ne-some w' step)

  -- Neither the worker's variables nor the time are in the invariant.
  worker_moved-Inv :
      (pc : Worker) (w : World K) (seen : ℕ)
      → Inv K w
      → Inv K (record w { worker = pc; g_worker_ticks_seen = seen })
  worker_moved-Inv pc w seen v = record {
    s = v.s;
    g = v.g;
    t = v.t;
    r = v.r;
    p = v.p;
    waiting = v.waiting;
    producer_at = v.producer_at;
    consumer_at = v.consumer_at;
    queued = v.queued;
    in_queue = v.in_queue;
    counted = v.counted;
    reported = v.reported;
  }

  worker-Inv : (pc : Worker) (w : World K) → Inv K w → Inv K (worker_from K pc w)
  unfolding worker_from
  worker-Inv starting w v = worker_moved-Inv _ w w.g_worker_ticks_seen v
  worker-Inv (spinning last reports) w v = worker_moved-Inv _ w w.g_worker_ticks_seen v
  worker-Inv (sampled last reports now) w v = elim (Bool-cases (now == last)) [
    | inl same ↦ rw same (worker_moved-Inv (spinning last reports) w w.g_worker_ticks_seen v)
    | inr new ↦ elim (Bool-cases (ltb reports 6)) [
      | inl more ↦
          rw (new, more)
            (print-Inv K (worker_run now)
              (record w { worker = spinning now (reports + 1); g_worker_ticks_seen = now }) refl
              refl (worker_moved-Inv (spinning now (reports + 1)) w now v))
      | inr enough ↦ rw (new, enough) (worker_moved-Inv (spinning now reports) w now v)
    ]
  ]

  tick-Inv : (w : World K) → Inv K w → Inv K (record w { kernel = K.tick w.kernel })
  tick-Inv w v = record {
    s = v.s;
    g = v.g;
    t = v.t;
    r = v.r;
    p = v.p;
    waiting = v.waiting;
    producer_at = v.producer_at;
    consumer_at = v.consumer_at;
    queued = K.queue_ticked w.kernel ∙ v.queued;
    in_queue = v.in_queue;
    counted = omega (arith, v.counted, K.count_ticked w.kernel);
    reported = v.reported;
  }

  pub Step-Inv : (timer : Bool) (w w' : World K) → Step K timer w w' → Inv K w → Inv K w'
  Step-Inv timer w w' (by_producer _ _ step) v = producer-Inv K w.producer w w' refl step v
  Step-Inv timer w w' (by_consumer _ _ step) v = consumer-Inv w.consumer w w' refl step v
  Step-Inv timer w w' (by_worker _) v = worker-Inv w.worker w v
  Step-Inv timer w w' (by_tick _ on) v = tick-Inv w v

  pub Reachable-Inv : (timer : Bool) (w : World K) → Reachable K timer w → Inv K w
  Reachable-Inv timer w start = main-Inv K timer
  Reachable-Inv timer w (next from _ path step) =
      Step-Inv timer from w step (Reachable-Inv timer from path)
