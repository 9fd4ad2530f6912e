-- ===== src/Rtos/Demo/Order.antt =====
-- What the transcript of the demonstration shows, with the tick and without it.
use takshaka.Base.{
  ℕ, ◌≤◌, ◌≡◌, ◌⊎◌, refl, ap, ◌∙◌, subst, Bool, inl, inr, some, ◌>>=◌, List, length, arith,
}
use takshaka.Rtos.Kernel.{Kernel}
use takshaka.Rtos.Demo.Transcript.{numbers, length-numbers, gots, dones}
use takshaka.Rtos.Demo.{
  num_items, queue_len, Line, Producer, sending, printing_sent, giving, calling_delay, delayed,
  deleted, Consumer, taking, took, printing_sem, receiving, received, printing_got, comparing,
  printing_done, passing, passed, World, consumer_from, Reachable,
}
use takshaka.Rtos.Demo.Invariant.{ProducerAt, ConsumerAt, sent_le, Inv}
use takshaka.Rtos.Demo.Reached.{Reachable-Inv}

-- The consumer has reported the items 1 to `n`, and the end only behind the last one.
pub record Ordered (out : List Line) : Type 0 where
  pub n : ℕ
  pub in_order : gots out ≡ numbers 0 n
  pub bound : n ≤ num_items
  pub ended : (dones out ≡ 0) ⊎ ((dones out ≡ 1) × (n ≡ num_items))

pub reported_bound : (pc : Consumer) (t m r c p d : ℕ) → ConsumerAt pc t m r c p d → p ≤ r
reported_bound taking t m r c p d (et, em, er, ep, ed, less) = omega (arith, er, ep)
reported_bound took t m r c p d (et, em, er, ep, ed, less) = omega (arith, er, ep)
reported_bound printing_sem t m r c p d (et, em, er, ep, ed, less) = omega (arith, er, ep)
reported_bound receiving t m r c p d (et, em, er, ep, ed, less) = omega (arith, er, ep)
reported_bound (received rx) t m r c p d (et, em, er, ep, ed, is) = omega (arith, er, ep)
reported_bound (printing_got rx) t m r c p d (et, em, er, ep, ed, is) = omega (arith, er, ep)
reported_bound comparing t m r c p d (et, em, er, ep, ed, le) = omega (arith, er, ep)
reported_bound printing_done t m r c p d (et, em, er, ep, ed, all) = omega (arith, er, ep)
reported_bound passing t m r c p d (et, em, er, ep, ed, all) = omega (arith, er, ep)
reported_bound passed t m r c p d (et, em, er, ep, ed, all) = omega (arith, er, ep)

-- The end is reported once, with all items counted and reported.
pub end_of :
    (pc : Consumer) (t m r c p d : ℕ)
    → ConsumerAt pc t m r c p d
    → (d ≡ 0) ⊎ ((d ≡ 1) × (p ≡ num_items))
end_of taking t m r c p d (et, em, er, ep, ed, less) = inl ed
end_of took t m r c p d (et, em, er, ep, ed, less) = inl ed
end_of printing_sem t m r c p d (et, em, er, ep, ed, less) = inl ed
end_of receiving t m r c p d (et, em, er, ep, ed, less) = inl ed
end_of (received rx) t m r c p d (et, em, er, ep, ed, is) = inl ed
end_of (printing_got rx) t m r c p d (et, em, er, ep, ed, is) = inl ed
end_of comparing t m r c p d (et, em, er, ep, ed, le) = inl ed
end_of printing_done t m r c p d (et, em, er, ep, ed, all) = inl ed
end_of passing t m r c p d (et, em, er, ep, ed, all) = inr (ed, ep ∙ all)
end_of passed t m r c p d (et, em, er, ep, ed, all) = inr (ed, ep ∙ all)

-- In every reachable world the consumer has reported the items 1 to `n`, in order and each once, with `n`
-- at most 8, and the transcript says that the demonstration is finished only if `n` is 8, and once.
pub Reachable-Ordered :
    (K : Kernel queue_len num_items) (timer : Bool) (w : World K)
    → Reachable K timer w
    → Ordered w.out
Reachable-Ordered K timer w path =
    let v = Reachable-Inv K timer w path in
    record {
      n = v.p;
      in_order = v.reported;
      bound = omega (
        arith,
        v.in_queue,
        sent_le w.producer v.s v.g v.producer_at,
        reported_bound w.consumer v.t w.g_sem_taken v.r w.g_consumed v.p (dones w.out)
            v.consumer_at,
      );
      ended = end_of w.consumer v.t w.g_sem_taken v.r w.g_consumed v.p (dones w.out) v.consumer_at;
    }

-- What is signalled is sent.
signalled_le : (pc : Producer) (s g : ℕ) → ProducerAt pc s g → g ≤ s
signalled_le (sending i) s g (is, all, le) = omega (arith, all)
signalled_le (printing_sent i) s g (is, more, le) = omega (arith, more)
signalled_le (giving i) s g (is, more, le) = omega (arith, more)
signalled_le (calling_delay i) s g (is, all, le) = omega (arith, all)
signalled_le (delayed i since) s g (is, all, le) = omega (arith, all)
signalled_le deleted s g (is, all, le) = omega (arith, all)

-- Where the consumer is to receive, it holds a signal of an item that it has not received.
pub receiving_item :
    (K : Kernel queue_len num_items) (w : World K)
    → Inv K w
    → w.consumer ≡ receiving
    → 1 ≤ length (K.queue w.kernel)
receiving_item K w v here =
    let (t, m, r, p, d, less) =
      subst (λ (pc : Consumer). ConsumerAt pc v.t w.g_sem_taken v.r w.g_consumed v.p (dones w.out))
        here v.consumer_at in
    omega (
      arith,
      ap length v.queued,
      length-numbers v.r v.waiting,
      v.in_queue,
      t,
      r,
      v.counted,
      signalled_le w.producer v.s v.g v.producer_at,
    )

-- Behind the semaphore the consumer never waits: in every reachable world in which it is to receive, an
-- item is in the queue, and its step is made.
pub consumer_from-receiving :
    (K : Kernel queue_len num_items) (timer : Bool) (w : World K)
    → Reachable K timer w
    → w.consumer ≡ receiving
    → (1 ≤ length (K.queue w.kernel)) × ((w' : World K) × (consumer_from K receiving w ≡ some w'))
unfolding consumer_from
consumer_from-receiving K timer w path here =
    let item = receiving_item K w (Reachable-Inv K timer w path) here in
    let (rx, k, call) = K.can_receive w.kernel item in
    (item, (record w { kernel = k; consumer = received rx }, rw (call, ◌>>=◌) refl))
