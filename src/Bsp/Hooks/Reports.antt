-- ===== src/Bsp/Hooks/Reports.antt =====
-- What the hooks leave on the console and in the simulation's exit register.
use takshaka.Base.{
  ℕ, ◌+◌, ◌%◌, ◌^◌, ◌≤◌, ◌<◌, ◌≡◌, ap, ◌∙◌, sym, false, Option, none, some, List, [], ◌∷◌, ◌++◌,
  arith, length, length-append, append_assoc, append-nil, codes,
}
use takshaka.Bsp.Board.{Board, Outcome, halts, Cmd, and_then, ◌>>◌, skip}
use takshaka.Bsp.Uart.{uart_putc, uart_puts, uart_putdec, literal}
use takshaka.Bsp.Uart.Sent.{frees, Sends, uart_putc-Sends, uart_puts-Sends, IsText}
use takshaka.Bsp.Uart.Number.{IsSignedDecimal, uart_putdec-SignedPrinted}
use takshaka.Bsp.Hooks.{
  sim_fail, v_assert_called, application_exception_handler, application_interrupt_handler,
  malloc_failed_hook, stack_overflow_hook,
}

-- The call never returns; before it spins it has sent `text` and stored 2 to TOHOST.
pub record Fails (text : List ℕ) (b : Board) (r : Outcome) : Type 0 where
  pub after : List ℕ
  pub ends : r ≡ halts (record b { status = after; sent = b.sent ++ text; tohost = some 2 })

sim_fail-Fails : (b : Board) → Fails [] b (sim_fail b)
unfolding sim_fail
sim_fail-Fails b = record {
  after = b.status;
  ends =
      ap (λ (t : List ℕ). halts (record b { sent = t; tohost = some 2 })) (sym (append-nil b.sent));
}

>>-Fails :
    (t t' : List ℕ) (m k : Cmd) (b : Board)
    → Sends t b (m b)
    → ((b' : Board) → length t' ≤ frees b'.status → Fails t' b' (k b'))
    → length (t ++ t') ≤ frees b.status
    → Fails (t ++ t') b ((m >> k) b)
>>-Fails t t' m k b first second room =
    let b' : Board = record b { status = first.after; sent = b.sent ++ t } in
    let next = second b' (omega (arith, first.slots, length-append t t')) in
    record {
      after = next.after;
      ends =
          ap (λ (r : Outcome). and_then r k) first.runs
          ∙ next.ends
          ∙ ap (λ (s : List ℕ). halts (record b { status = next.after; sent = s; tohost = some 2 }))
              (append_assoc b.sent t t');
    }

putc_then :
    (c : ℕ) (t : List ℕ) (k : Cmd) (b : Board)
    → c < 2 ^ 8
    → ((b' : Board) → length t ≤ frees b'.status → Fails t b' (k b'))
    → length (c ∷ t) ≤ frees b.status
    → Fails (c ∷ t) b ((uart_putc c >> k) b)
putc_then c t k b small next room =
    >>-Fails (c ∷ []) t (uart_putc c) k b (uart_putc-Sends c b small (omega arith)) next room

puts_then :
    (s t : List ℕ) (k : Cmd) (b : Board)
    → IsText s
    → ((b' : Board) → length t ≤ frees b'.status → Fails t b' (k b'))
    → length (s ++ t) ≤ frees b.status
    → Fails (s ++ t) b ((uart_puts (literal s) >> k) b)
puts_then s t k b h next room =
    >>-Fails s t (uart_puts (literal s)) k b
      (uart_puts-Sends s [] b h (omega (arith, length-append s t))) next room

line_then_fail :
    (b : Board)
    → length {A = ℕ} (b'\n' ∷ []) ≤ frees b.status
    → Fails (b'\n' ∷ []) b ((uart_putc b'\n' >> sim_fail) b)
line_then_fail b room = putc_then b'\n' [] sim_fail b (omega arith) (λ b' r. sim_fail-Fails b') room

-- `vAssertCalled` disables the interrupts, prints the file and the line, and fails the run.
pub v_assert_called-Fails :
    (pc_file : List ℕ) (ul_line : ℕ) (b : Board)
    → IsText pc_file
    → length pc_file + 23 ≤ frees b.status
    → (text : List ℕ) × IsSignedDecimal text (ul_line % 2 ^ 32)
      × Fails
          (codes "\n[ASSERT] " ++ (pc_file ++ (b':' ∷ (text ++ b'\n' ∷ []))))
          (record b { interrupts = false })
          (v_assert_called (literal pc_file) ul_line b)
unfolding v_assert_called
v_assert_called-Fails pc_file ul_line b h room =
    let p = uart_putdec-SignedPrinted (ul_line % 2 ^ 32) (omega arith) in
    let line : List ℕ = p.text ++ b'\n' ∷ [] in
    let put_line : Cmd = uart_putdec (ul_line % 2 ^ 32) >> uart_putc b'\n' >> sim_fail in
    (
      p.text,
      p.is,
      puts_then (codes "\n[ASSERT] ") (pc_file ++ (b':' ∷ line))
          (uart_puts (literal pc_file) >> uart_putc b':' >> put_line)
          (record b { interrupts = false }) (ground arith)
          (λ b1 r1.
            puts_then pc_file (b':' ∷ line) (uart_putc b':' >> put_line) b1 h
              (λ b2 r2.
                putc_then b':' line put_line b2 (omega arith)
                  (λ b3 r3.
                    >>-Fails p.text (b'\n' ∷ []) (uart_putdec (ul_line % 2 ^ 32))
                      (uart_putc b'\n' >> sim_fail) b3
                      (p.sends b3 (omega (arith, r3, length-append p.text (b'\n' ∷ []))))
                      line_then_fail r3)
                  r2)
              r1)
          (omega (
            arith,
            p.short,
            length-append pc_file (b':' ∷ line),
            length-append p.text (b'\n' ∷ []),
          )),
    )

abbrev name_of : Option (List ℕ) → List ℕ
name_of none = []
name_of (some s) = s

-- `vApplicationStackOverflowHook` disables the interrupts, prints the name of the task unless it is
-- NULL, and fails the run.
pub stack_overflow_hook-Fails :
    (name : Option (List ℕ)) (b : Board)
    → IsText (name_of name)
    → length (name_of name) + 25 ≤ frees b.status
    → Fails
        (codes "\n[STACK OVERFLOW] task: " ++ (name_of name ++ b'\n' ∷ []))
        (record b { interrupts = false })
        (stack_overflow_hook (elim name [ none ↦ none | some s ↦ some (literal s) ]) b)
unfolding stack_overflow_hook
stack_overflow_hook-Fails none b h room =
    puts_then (codes "\n[STACK OVERFLOW] task: ") (b'\n' ∷ []) (skip >> uart_putc b'\n' >> sim_fail)
      (record b { interrupts = false }) (ground arith) line_then_fail (omega arith)
stack_overflow_hook-Fails (some s) b h room =
    puts_then (codes "\n[STACK OVERFLOW] task: ") (s ++ b'\n' ∷ [])
      (uart_puts (literal s) >> uart_putc b'\n' >> sim_fail) (record b { interrupts = false })
      (ground arith)
      (λ b1 r1. puts_then s (b'\n' ∷ []) (uart_putc b'\n' >> sim_fail) b1 h line_then_fail r1)
      (omega (arith, length-append s (b'\n' ∷ [])))

-- `vApplicationMallocFailedHook` returns, counts the failure modulo 2 ^ 32, and says so.
pub malloc_failed_hook-Sends :
    (b : Board)
    → 21 ≤ frees b.status
    → Sends
        (codes "[HOOK] malloc failed\n")
        (record b { malloc_failed_count = (b.malloc_failed_count + 1) % 2 ^ 32 })
        (malloc_failed_hook b)
unfolding malloc_failed_hook
malloc_failed_hook-Sends b room =
    uart_puts-Sends (codes "[HOOK] malloc failed\n") []
      (record b { malloc_failed_count = (b.malloc_failed_count + 1) % 2 ^ 32 }) (ground arith)
      (omega arith)

-- The two trap handlers name the trap and fail the run.
pub trap_handlers-Fails :
    (b : Board)
    → 29 ≤ frees b.status
    → Fails (codes "\n[TRAP] unexpected exception\n") b (application_exception_handler b)
      × Fails (codes "\n[TRAP] unexpected interrupt\n") b (application_interrupt_handler b)
unfolding application_exception_handler application_interrupt_handler
trap_handlers-Fails b room = (
  puts_then (codes "\n[TRAP] unexpected exception\n") [] sim_fail b (ground arith)
      (λ b' r. sim_fail-Fails b') (omega arith),
  puts_then (codes "\n[TRAP] unexpected interrupt\n") [] sim_fail b (ground arith)
      (λ b' r. sim_fail-Fails b') (omega arith),
)
