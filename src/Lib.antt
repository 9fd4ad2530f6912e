-- ===== src/Lib.antt =====
-- The C programs of the 3-SIPP-ESR system on a chip: the CoreMark and Dhrystone benchmarks as they are
-- ported to it, the FreeRTOS applications, and the board support that these are linked with. The programs run
-- on RV32 without an operating system and see the hardware through memory-mapped registers.
--
-- Parts and files
--   Base: shared names, Boolean tests and conditionals on the native numbers (Base/Tests), arrays as
--     lists (Base/Lists), bit operations and bit fields (Base/Bits, Base/Fields).
--   CoreMark/Crc: crcu8, crcu16, crc16, crcu32 of coremark/src/core_util.c; Crc/Shift has a shift
--     register as the independent description.
--   CoreMark/State: coremark/src/core_state.c. core_state_transition is `scan` over `next_symbol`, one
--     round of the switch; State/Format has the grammar of the numbers, State/Automaton, State/Sound and
--     State/Token relate the machine to it. State/Init models core_init_state, State/Corrupt the two
--     corruption loops, State/Text and State/Bench the whole of core_bench_state.
--   CoreMark/Matrix: coremark/src/core_matrix.c. A, B and C are arrays; the nested loops are `for_to`.
--     Matrix/Loops has the law of loops that write every cell once, Matrix/Laws the operations and
--     Matrix/Size core_init_matrix.
--   CoreMark/ListJoin: coremark/src/core_list_join.c on an explicit heap of `next` and `info` pointers.
--     ListJoin/Chain is about find and reverse, ListJoin/Splice about remove, undo and insert;
--     ListJoin/Sort models core_list_mergesort for any comparison function: Sort/Order has what such a
--     function must do, Sort/Segments the linked runs, Sort/Merge and Sort/Pass one merge and one pass,
--     Sort/Laws the whole, and Bench/Sorting applies it to cmp_idx; Bench/Moving and Bench/Caching are
--     about the first loop of core_bench_list, Bench/Behind, Bench/Restored and Bench/SameOrder about
--     the whole of it; ListJoin/Bench models calc_func, cmp_complex, cmp_idx and core_bench_list,
--     ListJoin/Init models core_list_init, with Init/Filled on its insertions, Init/Sorted on the whole
--     and Init/Benched on core_bench_list behind it. calc_func calls core_bench_state of
--     CoreMark/State and core_bench_matrix of CoreMark/Matrix, and folds what they return with crcu16
--     of CoreMark/Crc, as core_bench_list does with crc16.
--   CoreMark/Port: the seeds, timers, alignment and number printing of coremark/src/core_portme.c, and
--     get_seed_32 and check_data_types of core_util.c. Port/Printf is ee_printf, on a format that is the
--     memory from its pointer on, portable_init and portable_fini; Port/DataTypes has the messages of
--     check_data_types; Port/Decimal is about print_int.
--   CoreMark/Driver: coremark/src/core_main.c. `parameters` is the choice of the seeds, block_size and
--     block_start the division of the memory, iterate the timed part, known_id and known_errors the
--     comparison at the end. Driver/Calibrate chooses the iterations by time, Driver/Report is what is
--     printed, and Driver/Main puts these together to core_main, which Driver/Tests runs with the seeds of
--     three known runs: it gives the nine checksums of the tables of core_main.c.
--   CoreMark/Arguments: parseval and get_seed_args of core_util.c, the variant for seeds from the command
--     line; Arguments/Notation has the numbers that it reads.
--   CoreMark/Barebones: coremark/src/barebones/ee_printf.c without floating-point numbers, the printing of
--     the template of a port. The module itself has number and strnlen, Barebones/Address eaddr and
--     iaddr, Barebones/Vsprintf ee_vsprintf, by one byte of the format at a time (`read_byte`), and ee_printf.
--     Barebones/Numeral is about the digits, Barebones/Letters about their case, Barebones/Layout about
--     the field, and Barebones/Number puts these together;
--     Barebones/Directive has the conversions as they are written, Directive/Stages and
--     Directive/Reading how they are read, and Directive/Integers puts both together.
--   Dhrystone: Dhrystone/Globals has the types of dhrystone/src/dhry.h and the global variables,
--     Dhrystone/Helpers dhry_2.c, Dhrystone/Procedures the procedures of dhry_1.c, Dhrystone/Main the
--     loop of its main (`run` is one round), Dhrystone/Score the score, Dhrystone/Port the
--     printing of dhry_port.c and Port/Strcpy its strcpy.
--   Bsp: Bsp/Board has the registers of rtos/bsp/bsp.h and the calls that spin for ever, Bsp/Uart and
--     Bsp/Hooks the functions of rtos/bsp/bsp.c, Bsp/Libc those of rtos/bsp/libc_stubs.c.
--   Rtos: the applications of rtos/app. Rtos/Kernel is the interface of the FreeRTOS kernel: the calls
--     that rtos/app/main.c makes and their documented behaviour. Rtos/Demo models that file as a step
--     relation: a task is where it stands in its function, a step is one statement of any task or the
--     tick, and the scheduler may choose any step, so its priorities are one case of the steps. The
--     calls that print one line of the transcript are one step. Demo/Invariant and Demo/Reached have
--     the invariant, Demo/Order, Demo/NoTick and Demo/Progress what follows from it. Rtos/Timing is
--     rtos/app/test_timing.c, with the reads of the cycle counter as arguments. Rtos/Stress models
--     rtos/app/test_stress.c as a step relation in which the increment of the shared counter is a load
--     and a store; its kernel is the record Scheduler, without any law. Rtos/Interrupt is the software
--     interrupt of rtos/app/test_interrupt.c, with the notifications of the kernel as a record: a store to
--     CLINT_MSIP runs the handler at once where the interrupt is enabled, and the task SW_IRQ ends
--     within the wait of the master task.
--   The modules called Tests run the functions and apply the theorems at concrete inputs.
--
-- Conventions
--   Machine integers are bit patterns in the native numbers, with `% 2 ^ w` where the source wraps. A
--   pointer into a block is the list of the bytes from it on, or an offset into the list; in
--   ListJoin a pointer is the number of its cell and `none` is NULL; in Bsp/Libc memory is a function of
--   the address, and addresses do not wrap. A fault, such as a NULL dereference or a read behind a list,
--   is `none` (`stuck` on the board), and so is a lack of fuel.
--   The reads of the UART status are an input of the board: the list of the values that later reads
--   return. A call that needs the transmitter asks in its theorem for enough values with the busy bit
--   clear.
--
-- Bounds and fuel
--   The scans of the state machine recurse on the bytes of the block. core_init_state has one round
--   more than the size, since each round but the first and the last stores at least one byte. The loop
--   that chooses the dimension of a matrix has 65536 rounds, and a block below 2 ^ 31 bytes takes fewer
--   than 16386. A walk over a list has a round for each item, and a merge a round for each item of its
--   two runs. Decimal printing of a 32-bit number takes ten rounds of the twelve, twenty or 32 given,
--   and printing in any base from 2 on at most the 32 that CoreMark/Barebones gives. A loop of Dhrystone
--   takes fewer than 30 rounds. A sort of n items takes at most n + 1 passes of at most n merges, since a
--   pass halves the number of the sorted runs.
--
-- Not modelled
--   The processor and the peripherals (rtl, SystemVerilog), the FreeRTOS kernel (not in the
--   repository), whose calls are a parameter of Rtos, rtos/app/test_smoke.c, whose tasks of equal
--   priority interleave, the checks of the timer and of the delays in rtos/app/test_interrupt.c, the
--   alignment of the addresses of the matrices, what computes with double in coremark/src/barebones
--   (flt, parse_float and cvt.c), its core_portme.c, which is left to the porter, and the scripts and
--   assembler files.
pub mod Base
pub mod Bsp
pub mod CoreMark
pub mod Dhrystone
pub mod Rtos
