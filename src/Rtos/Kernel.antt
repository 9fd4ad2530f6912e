-- ===== src/Rtos/Kernel.antt =====
-- The kernel's calls that rtos/app/main.c makes, on its one queue and its one counting semaphore, with
-- their documented behaviour. The kernel is not part of the repository.
use takshaka.Base.{ℕ, suc, ◌<◌, ◌≤◌, ◌≡◌, Option, some, List, [], ◌∷◌, ◌++◌, length}

-- `queue_length` is the argument of `xQueueCreate`, and `max_count` that of `xSemaphoreCreateCounting`.
-- A call with `portMAX_DELAY` that does not return yet is `none`.
pub record Kernel (queue_length max_count : ℕ) : Type 1 where
  pub State : Type 0
  -- What the calls can observe: the items of the queue, the count of the semaphore, and the number of
  -- ticks since the start.
  pub queue : State → List ℕ
  pub count : State → ℕ
  pub now : State → ℕ
  pub created : State
  pub queue_created : queue created ≡ []
  pub count_created : count created ≡ 0
  -- `xQueueSend`: to the back of the queue, which blocks only while the queue is full.
  pub send : ℕ → State → Option State
  pub queue_sent : (v : ℕ) (k k' : State) → send v k ≡ some k' → queue k' ≡ queue k ++ v ∷ []
  pub count_sent : (v : ℕ) (k k' : State) → send v k ≡ some k' → count k' ≡ count k
  pub now_sent : (v : ℕ) (k k' : State) → send v k ≡ some k' → now k' ≡ now k
  pub can_send :
      (v : ℕ) (k : State) → length (queue k) < queue_length → (k' : State) × (send v k ≡ some k')
  -- `xQueueReceive`: from the front, which blocks only while the queue is empty.
  pub receive : State → Option (ℕ × State)
  pub queue_received : (v : ℕ) (k k' : State) → receive k ≡ some (v, k') → queue k ≡ v ∷ queue k'
  pub count_received : (v : ℕ) (k k' : State) → receive k ≡ some (v, k') → count k' ≡ count k
  pub now_received : (v : ℕ) (k k' : State) → receive k ≡ some (v, k') → now k' ≡ now k
  pub can_receive :
      (k : State) → 1 ≤ length (queue k) → (v : ℕ) × (k' : State) × (receive k ≡ some (v, k'))
  -- `xSemaphoreGive`: one up, unless the count is at its maximum.
  pub give : State → State
  pub count_given : (k : State) → count k < max_count → count (give k) ≡ suc (count k)
  pub queue_given : (k : State) → queue (give k) ≡ queue k
  pub now_given : (k : State) → now (give k) ≡ now k
  -- `xSemaphoreTake`: one down, which blocks only while the count is 0.
  pub take : State → Option State
  pub count_taken : (k k' : State) → take k ≡ some k' → count k ≡ suc (count k')
  pub queue_taken : (k k' : State) → take k ≡ some k' → queue k' ≡ queue k
  pub now_taken : (k k' : State) → take k ≡ some k' → now k' ≡ now k
  pub can_take : (k : State) → 1 ≤ count k → (k' : State) × (take k ≡ some k')
  -- The timer interrupt.
  pub tick : State → State
  pub now_ticked : (k : State) → now (tick k) ≡ suc (now k)
  pub queue_ticked : (k : State) → queue (tick k) ≡ queue k
  pub count_ticked : (k : State) → count (tick k) ≡ count k
