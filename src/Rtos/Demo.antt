-- ===== src/Rtos/Demo.antt =====
-- rtos/app/main.c: the three tasks of the demonstration, as steps that any scheduler may interleave.
-- A step is one statement, and the calls that print one line are one step.
pub mod Transcript
pub mod Invariant
pub mod Reached
pub mod Order
pub mod NoTick
pub mod Progress
use takshaka.Base.{
  ℕ, zero, suc, ◌+◌, ◌%◌, ◌^◌, ◌≡◌, ◌==◌, ltb, leb, Bool, true, false, if◌then◌else◌, Option, none,
  some, ◌>>=◌, List, [], ◌∷◌, ◌++◌,
}
use takshaka.Rtos.Kernel.{Kernel}

abbrev pub num_items : ℕ
num_items = 8

abbrev pub queue_len : ℕ
queue_len = 4

-- `pdMS_TO_TICKS( 5 )`, with the tick of 1 ms of rtos/bsp/FreeRTOSConfig.h.
abbrev pub pace : ℕ
pace = 5

-- The lines of the transcript.
pub data Line : Type 0 where
  booted : Line
  tick_disabled : Line
  sent : ℕ → Line
  sem : Line
  got : ℕ → Line
  done_ok : Line
  worker_run : ℕ → Line

-- Where `vProducer` is, with its `i`, and the time of the call of `vTaskDelay`.
pub data Producer : Type 0 where
  sending : ℕ → Producer
  printing_sent : ℕ → Producer
  giving : ℕ → Producer
  calling_delay : ℕ → Producer
  delayed : (i since : ℕ) → Producer
  deleted : Producer

-- Where `vConsumer` is, with its `rx`.
pub data Consumer : Type 0 where
  taking : Consumer
  took : Consumer
  printing_sem : Consumer
  receiving : Consumer
  received : ℕ → Consumer
  printing_got : ℕ → Consumer
  comparing : Consumer
  printing_done : Consumer
  passing : Consumer
  passed : Consumer

-- Where `vWorker` is, with its `last`, `reports` and `now`.
pub data Worker : Type 0 where
  starting : Worker
  spinning : (last reports : ℕ) → Worker
  sampled : (last reports now : ℕ) → Worker

pub record World (K : Kernel queue_len num_items) : Type 0 where
  pub kernel : K.State
  pub producer : Producer
  pub consumer : Consumer
  pub worker : Worker
  pub g_worker_ticks_seen : ℕ
  pub g_consumed : ℕ
  pub g_sem_taken : ℕ
  pub out : List Line

-- `i <= NUM_ITEMS`, at the head of the producer's loop.
abbrev pub next_item : ℕ → Producer
next_item i = if leb i num_items then sending i else deleted

module _ (K : Kernel queue_len num_items) where
  abbrev print : Line → World K → World K
  print line w = record w { out = w.out ++ line ∷ [] }

  -- `xTaskGetTickCount()`
  abbrev tick_count : World K → ℕ
  tick_count w = K.now w.kernel % 2 ^ 32

  -- The producer goes on from where it is. `none` is a blocked or deleted task.
  unfoldable pub producer_from : Producer → World K → Option (World K)
  producer_from (sending i) w = do
    k ← K.send i w.kernel
    some (record w { kernel = k; producer = printing_sent i })
  producer_from (printing_sent i) w = some (print (sent i) (record w { producer = giving i }))
  producer_from (giving i) w =
      some (record w { kernel = K.give w.kernel; producer = calling_delay i })
  producer_from (calling_delay i) w = some (record w { producer = delayed i (K.now w.kernel) })
  producer_from (delayed i since) w =
      if leb (since + pace) (K.now w.kernel)
      then some (record w { producer = next_item (i + 1) })
      else none
  producer_from deleted w = none

  unfoldable pub consumer_from : Consumer → World K → Option (World K)
  consumer_from taking w = do k ← K.take w.kernel; some (record w { kernel = k; consumer = took })
  consumer_from took w =
      some (record w { g_sem_taken = w.g_sem_taken + 1; consumer = printing_sem })
  consumer_from printing_sem w = some (print sem (record w { consumer = receiving }))
  consumer_from receiving w = do
    (rx, k) ← K.receive w.kernel
    some (record w { kernel = k; consumer = received rx })
  consumer_from (received rx) w =
      some (record w { g_consumed = w.g_consumed + 1; consumer = printing_got rx })
  consumer_from (printing_got rx) w = some (print (got rx) (record w { consumer = comparing }))
  consumer_from comparing w =
      some (record w { consumer = if w.g_consumed == num_items then printing_done else taking })
  consumer_from printing_done w = some (print done_ok (record w { consumer = passing }))
  consumer_from passing w = some (record w { consumer = passed })
  consumer_from passed w = none

  -- The worker spins between `spinning` and `sampled`, and never blocks.
  unfoldable pub worker_from : Worker → World K → World K
  worker_from starting w = record w { worker = spinning (tick_count w) 0 }
  worker_from (spinning last reports) w = record w { worker = sampled last reports (tick_count w) }
  worker_from (sampled last reports now) w =
      if now == last
      then record w { worker = spinning last reports }
      else (let w' = record w { g_worker_ticks_seen = now } in
          if ltb reports 6
          then print (worker_run now) (record w' { worker = spinning now (reports + 1) })
          else record w' { worker = spinning now reports })

  -- `main`, up to the start of the scheduler, and the setup of the timer, which the build with
  -- `NEG_NO_TICK` leaves out (`timer` is `false`).
  unfoldable pub main : (timer : Bool) → World K
  main timer = record {
    kernel = K.created;
    producer = next_item 1;
    consumer = taking;
    worker = starting;
    g_worker_ticks_seen = 0;
    g_consumed = 0;
    g_sem_taken = 0;
    out = booted ∷ (if timer then [] else tick_disabled ∷ []);
  }

  -- One step of the system, by whichever task the scheduler runs, or by the timer.
  pub data Step (timer : Bool) : World K → World K → Type 0 where
    by_producer : (w w' : World K) → producer_from w.producer w ≡ some w' → Step timer w w'
    by_consumer : (w w' : World K) → consumer_from w.consumer w ≡ some w' → Step timer w w'
    by_worker : (w : World K) → Step timer w (worker_from w.worker w)
    by_tick : (w : World K) → timer ≡ true → Step timer w (record w { kernel = K.tick w.kernel })

  pub data Reachable (timer : Bool) : World K → Type 0 where
    start : Reachable timer (main timer)
    next : (w w' : World K) → Reachable timer w → Step timer w w' → Reachable timer w'
