-- ===== src/Rtos/Demo/Transcript.antt =====
-- The lines of the transcript that the demonstration's claims read, and runs of numbers.
use takshaka.Base.{ℕ, zero, suc, ◌+◌, ◌≡◌, refl, ap, List, [], ◌∷◌, ◌++◌, length, arith}
use takshaka.Rtos.Demo.{Line, booted, tick_disabled, sent, sem, got, done_ok, worker_run}

-- The numbers `first + 1` to `first + n`.
abbrev pub numbers : (first n : ℕ) → List ℕ
numbers first zero = []
numbers first (suc n) = suc first ∷ numbers (suc first) n

pub numbers_snoc :
    (first n m : ℕ) → m ≡ suc (first + n) → numbers first n ++ m ∷ [] ≡ numbers first (suc n)
numbers_snoc first zero m e = ap (λ (v : ℕ). v ∷ []) (omega (arith, e))
numbers_snoc first (suc n) m e =
    ap (λ (vs : List ℕ). suc first ∷ vs) (numbers_snoc (suc first) n m (omega (arith, e)))

pub length-numbers : (first n : ℕ) → length (numbers first n) ≡ n
length-numbers first zero = refl
length-numbers first (suc n) = ap suc (length-numbers (suc first) n)

-- The items that the consumer has reported, in order.
abbrev pub gots : List Line → List ℕ
gots [] = []
gots (got rx ∷ out) = rx ∷ gots out
gots (booted ∷ out) = gots out
gots (tick_disabled ∷ out) = gots out
gots (sent i ∷ out) = gots out
gots (sem ∷ out) = gots out
gots (done_ok ∷ out) = gots out
gots (worker_run t ∷ out) = gots out

-- How often the transcript says that the demonstration is finished.
abbrev pub dones : List Line → ℕ
dones [] = 0
dones (done_ok ∷ out) = suc (dones out)
dones (got rx ∷ out) = dones out
dones (booted ∷ out) = dones out
dones (tick_disabled ∷ out) = dones out
dones (sent i ∷ out) = dones out
dones (sem ∷ out) = dones out
dones (worker_run t ∷ out) = dones out

pub gots-append : (out more : List Line) → gots (out ++ more) ≡ gots out ++ gots more
gots-append [] more = refl
gots-append (got rx ∷ out) more = ap (λ (vs : List ℕ). rx ∷ vs) (gots-append out more)
gots-append (booted ∷ out) more = gots-append out more
gots-append (tick_disabled ∷ out) more = gots-append out more
gots-append (sent i ∷ out) more = gots-append out more
gots-append (sem ∷ out) more = gots-append out more
gots-append (done_ok ∷ out) more = gots-append out more
gots-append (worker_run t ∷ out) more = gots-append out more

pub dones-append : (out more : List Line) → dones (out ++ more) ≡ dones out + dones more
dones-append [] more = omega arith
dones-append (done_ok ∷ out) more = omega (arith, dones-append out more)
dones-append (got rx ∷ out) more = dones-append out more
dones-append (booted ∷ out) more = dones-append out more
dones-append (tick_disabled ∷ out) more = dones-append out more
dones-append (sent i ∷ out) more = dones-append out more
dones-append (sem ∷ out) more = dones-append out more
dones-append (worker_run t ∷ out) more = dones-append out more

-- The item that is received is the one behind the received ones.
pub front_item :
    (first n v : ℕ) (vs : List ℕ)
    → numbers first n ≡ v ∷ vs
    → (m : ℕ) × (n ≡ suc m) × (v ≡ suc first) × (vs ≡ numbers (suc first) m)
front_item first zero v vs e = absurd (omega (arith, ap length e))
front_item first (suc m) v vs e = (m, refl, cc e, cc e)
