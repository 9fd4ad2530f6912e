-- ===== src/Bsp/Uart/Sent.antt =====
-- What a console call transmits, and how many free slots of the transmitter it takes.
use takshaka.Base.{
  ℕ, suc, ◌+◌, ◌%◌, ◌^◌, ◌≤◌, ◌<◌, ◌≡◌, ap, ◌∙◌, sym, false, ◌==◌, if◌then◌else◌, some, List, [],
  ◌∷◌, ◌++◌, arith, Bool-cases, inl, inr, length, append_assoc, append-nil, length-append, bit_and,
}
use takshaka.Bsp.Board.{Board, Outcome, returns, Cmd, and_then, ◌>>◌, skip}
use takshaka.Bsp.Uart.{wait_free, uart_putc, uart_puts, put_buffer}

-- The reads that find the transmitter free.
abbrev pub frees : List ℕ → ℕ
frees [] = 0
frees (s ∷ ss) = if bit_and s 1 == 0 then suc (frees ss) else frees ss

-- The call returns, sends exactly `text`, takes one free slot for each byte, and touches nothing else.
pub record Sends (text : List ℕ) (b : Board) (r : Outcome) : Type 0 where
  pub after : List ℕ
  pub runs : r ≡ returns (record b { status = after; sent = b.sent ++ text })
  pub slots : frees after + length text ≡ frees b.status

pub skip-Sends : (b : Board) → Sends [] b (skip b)
skip-Sends b = record {
  after = b.status;
  runs = ap (λ (t : List ℕ). returns (record b { sent = t })) (sym (append-nil b.sent));
  slots = omega arith;
}

pub >>-Sends :
    (t t' : List ℕ) (m k : Cmd) (b : Board)
    → Sends t b (m b)
    → ((b' : Board) → length t' ≤ frees b'.status → Sends t' b' (k b'))
    → length (t ++ t') ≤ frees b.status
    → Sends (t ++ t') b ((m >> k) b)
>>-Sends t t' m k b first second room =
    let b' : Board = record b { status = first.after; sent = b.sent ++ t } in
    let next = second b' (omega (arith, first.slots, length-append t t')) in
    record {
      after = next.after;
      runs =
          ap (λ (r : Outcome). and_then r k) first.runs
          ∙ next.runs
          ∙ ap (λ (s : List ℕ). returns (record b { status = next.after; sent = s }))
              (append_assoc b.sent t t');
      slots = omega (arith, first.slots, next.slots, length-append t t');
    }

wait_free-frees :
    (ss : List ℕ)
    → 1 ≤ frees ss
    → (rest : List ℕ) × (wait_free ss ≡ some rest) × (frees rest + 1 ≡ frees ss)
unfolding wait_free
wait_free-frees [] h = absurd (omega arith)
wait_free-frees (s ∷ ss) h = elim (Bool-cases (bit_and s 1 == 0)) [
  | inl free ↦ (ss, rw free, ground arith)
  | inr busy ↦ rw busy (wait_free-frees ss (ground arith))
]

pub uart_putc-Sends :
    (c : ℕ) (b : Board) → c < 2 ^ 8 → 1 ≤ frees b.status → Sends (c ∷ []) b (uart_putc c b)
unfolding uart_putc
uart_putc-Sends c b small room =
    let (rest, e, left) = wait_free-frees b.status room in
    let byte : c % 2 ^ 8 ≡ c = omega arith in
    record { after = rest; runs = rw (e, byte, uart_putc); slots = omega (arith, left) }

abbrev pub IsBytes : List ℕ → Type 0
IsBytes [] = Unit
IsBytes (c ∷ s) = (c < 2 ^ 8) × IsBytes s

abbrev pub IsText : List ℕ → Type 0
IsText [] = Unit
IsText (c ∷ s) = (c < 2 ^ 8) × ((c == 0) ≡ false) × IsText s

-- `uart_puts` sends a string of non-zero bytes, in order, and stops at the NUL.
pub uart_puts-Sends :
    (s rest : List ℕ) (b : Board)
    → IsText s
    → length s ≤ frees b.status
    → Sends s b (uart_puts (s ++ 0 ∷ rest) b)
unfolding uart_puts
uart_puts-Sends [] rest b h room = skip-Sends b
uart_puts-Sends (c ∷ s) rest b h room = rw h.1 (
    >>-Sends (c ∷ []) s (uart_putc c) (uart_puts (s ++ 0 ∷ rest)) b
      (uart_putc-Sends c b h.0 (omega arith)) (λ b' r. uart_puts-Sends s rest b' h.2 r) room)

pub put_buffer-Sends :
    (s : List ℕ) (b : Board) → IsBytes s → length s ≤ frees b.status → Sends s b (put_buffer s b)
unfolding put_buffer
put_buffer-Sends [] b h room = skip-Sends b
put_buffer-Sends (c ∷ s) b h room =
    >>-Sends (c ∷ []) s (uart_putc c) (put_buffer s) b (uart_putc-Sends c b h.0 (omega arith))
      (λ b' r. put_buffer-Sends s b' h.1 r) room
