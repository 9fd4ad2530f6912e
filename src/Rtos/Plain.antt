-- ===== src/Rtos/Plain.antt =====
-- A concrete kernel for the tests: the queue as a list, with two counters.
use takshaka.Base.{
  ℕ, zero, suc, ◌+◌, ◌≤◌, ◌<◌, ◌≡◌, refl, ap, sym, ltb, if◌then◌else◌, Bool-cases, inl, inr, Option,
  none, some, List, [], ◌∷◌, ◌++◌, length, arith,
}
use mathlib.Core.Option.{some-injective, none-ne-some}
use takshaka.Rtos.Kernel.{Kernel}
use takshaka.Rtos.Demo.{queue_len}

pub record Plain : Type 0 where
  pub items : List ℕ
  pub units : ℕ
  pub ticks : ℕ

abbrev pub plain_send : ℕ → Plain → Option Plain
plain_send v k =
    if ltb (length k.items) queue_len then some (record k { items = k.items ++ v ∷ [] }) else none

abbrev pub from_front : List ℕ → Plain → Option (ℕ × Plain)
from_front [] k = none
from_front (v ∷ vs) k = some (v, record k { items = vs })

abbrev pub plain_give : (max : ℕ) → Plain → Plain
plain_give max k = record k { units = if ltb k.units max then k.units + 1 else k.units }

abbrev pub one_down : ℕ → Plain → Option Plain
one_down zero k = none
one_down (suc n) k = some (record k { units = n })

pub plain_sent :
    (v : ℕ) (k k' : Plain)
    → plain_send v k ≡ some k'
    → (k'.items ≡ k.items ++ v ∷ []) × (k'.units ≡ k.units) × (k'.ticks ≡ k.ticks)
plain_sent v k k' e = elim (Bool-cases (ltb (length k.items) queue_len)) [
  | inl free ↦
      let is = some-injective _ k' (rw free at e) in
      (
        sym (ap (λ (p : Plain). p.items) is),
        sym (ap (λ (p : Plain). p.units) is),
        sym (ap (λ (p : Plain). p.ticks) is),
      )
  | inr full ↦ absurd (none-ne-some k' (rw full at e))
]

pub plain_received :
    (vs : List ℕ) (v : ℕ) (k k' : Plain)
    → from_front vs k ≡ some (v, k')
    → (vs ≡ v ∷ k'.items) × (k'.units ≡ k.units) × (k'.ticks ≡ k.ticks)
plain_received [] v k k' e = absurd (none-ne-some (v, k') e)
plain_received (x ∷ vs) v k k' e =
    let is = some-injective _ (v, k') e in
    (
      ap (λ (p : ℕ × Plain). p.0 ∷ p.1.items) is,
      sym (ap (λ (p : ℕ × Plain). p.1.units) is),
      sym (ap (λ (p : ℕ × Plain). p.1.ticks) is),
    )

pub plain_taken :
    (n : ℕ) (k k' : Plain)
    → one_down n k ≡ some k'
    → (n ≡ suc k'.units) × (k'.items ≡ k.items) × (k'.ticks ≡ k.ticks)
plain_taken zero k k' e = absurd (none-ne-some k' e)
plain_taken (suc n) k k' e =
    let is = some-injective _ k' e in
    (
      ap (λ (p : Plain). suc p.units) is,
      sym (ap (λ (p : Plain). p.items) is),
      sym (ap (λ (p : Plain). p.ticks) is),
    )

pub front_of :
    (vs : List ℕ) (k : Plain)
    → 1 ≤ length vs
    → (v : ℕ) × (k' : Plain) × (from_front vs k ≡ some (v, k'))
front_of [] k le = absurd (omega (arith, le))
front_of (v ∷ vs) k le = (v, record k { items = vs }, refl)

pub down_of : (n : ℕ) (k : Plain) → 1 ≤ n → (k' : Plain) × (one_down n k ≡ some k')
down_of zero k le = absurd (omega (arith, le))
down_of (suc n) k le = (record k { units = n }, refl)

pub plain_can_send :
    (v : ℕ) (k : Plain) → length k.items < queue_len → (k' : Plain) × (plain_send v k ≡ some k')
plain_can_send v k less = (record k { items = k.items ++ v ∷ [] }, ground (arith, less))

pub plain_given : (max : ℕ) (k : Plain) → k.units < max → (plain_give max k).units ≡ suc k.units
plain_given max k less = ground (arith, less)

abbrev pub plain : (max : ℕ) → Kernel queue_len max
plain max = record {
  State = Plain;
  queue = λ k. k.items;
  count = λ k. k.units;
  now = λ k. k.ticks;
  created = record { items = []; units = 0; ticks = 0 };
  queue_created = refl;
  count_created = refl;
  send = plain_send;
  queue_sent = λ v k k' e. (plain_sent v k k' e).0;
  count_sent = λ v k k' e. (plain_sent v k k' e).1;
  now_sent = λ v k k' e. (plain_sent v k k' e).2;
  can_send = plain_can_send;
  receive = λ k. from_front k.items k;
  queue_received = λ v k k' e. (plain_received k.items v k k' e).0;
  count_received = λ v k k' e. (plain_received k.items v k k' e).1;
  now_received = λ v k k' e. (plain_received k.items v k k' e).2;
  can_receive = λ k le. front_of k.items k le;
  give = plain_give max;
  count_given = plain_given max;
  queue_given = λ k. refl;
  now_given = λ k. refl;
  take = λ k. one_down k.units k;
  count_taken = λ k k' e. (plain_taken k.units k k' e).0;
  queue_taken = λ k k' e. (plain_taken k.units k k' e).1;
  now_taken = λ k k' e. (plain_taken k.units k k' e).2;
  can_take = λ k le. down_of k.units k le;
  tick = λ k. record k { ticks = k.ticks + 1 };
  now_ticked = λ k. omega arith;
  queue_ticked = λ k. refl;
  count_ticked = λ k. refl;
}
