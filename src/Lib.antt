-- ===== src/Lib.antt =====
-- Cyancore: a framework for small embedded systems. This library models parts of its C code and
-- states what makes them correct. Paths are from the repository's root.
--
-- Helios is the kernel, src/visor/services/kernel/helios. Its state is one scheduler control block,
-- two rings of task control blocks (the ready ring and the wait list, doubly linked through the
-- blocks), mutexes and semaphores. The scheduler walks the wait list before each choice; mutexes and
-- semaphores send the current task there.
--
-- - Helios.Kernel: helios_sched.h's structures as records, a memory of control blocks by address,
--   and the commands that read and write them. An access through a bad pointer is a fault. A
--   function with a `while` loop takes rounds and returns `hang` when they are used up; a theorem
--   that a function returns holds for the rounds that its statement names.
-- - Helios.Link: insert_before, insert_after and node_detach of helios_sched.c. Helios.Link.View
--   and Helios.Link.Cut have their effect on the links address by address, Helios.Link.Ring the rings
--   as lists.
-- - Helios.Sched: the rest of helios_sched.c, and helios_task_wait of helios_tasks.c. Below it the
--   wait list is a queue (Wait), which tasks join (Wait.Enlist) and leave (Wait.Resume), and Hang
--   has the loops that do not end.
-- - Helios.Tasks: helios_tasks.c. Tasks.Control has the calls on a task that is there, helios_run and
--   the clean-up of helios_task_idle.c. Tasks.Lookup is about the search for a task id, Tasks.Halt
--   about pausing all tasks, over Tasks.Frame, which says what pausing leaves as it is.
-- - Helios.Mutex and Helios.Sem: helios_mutex.c and helios_sem.c, each with its abstract view.
--
-- The C library, src/lib/libc, has the allocator that Helios uses, and the functions on characters,
-- numbers and memory that the rest of the framework uses.
--
-- - Libc.Malloc: malloc_lite.c. A heap is the list of its chunks; below it are what its steps do
--   to that list (Steps), the tiling of the heap (Tiling), the blocks in use (Blocks), the merging of
--   free chunks (Coalesce), that `free` undoes `malloc` (RoundTrip) and where the search ends (Search).
-- - Libc.Ctype: ctype.c, on characters as numbers, and how its classes partition them (Classes).
-- - Libc.Strton and Libc.Printf: atol of strton.c, and the number printing of printf.c, whose loop
--   has 32 rounds, more than the digits of a 32-bit number. Printf.RoundTrip relates the two.
--   Printf.Format is vprintf, a step for each character of the format, with the write of
--   src/lib/libccfs/ccpfs.c; Format.Pieces says what a format means, Format.Numerals that the
--   numbers are printed as their numerals, Format.Cases what each case of the switch does, Format.Steps
--   what each piece does, and Format.Printed joins them.
-- - Libc.String: the mem functions, strlen and strnlen of string.c, on a memory that gives the byte
--   at each address; Copy is about moving regions and Compare about comparing them. Libc.Strings has
--   the functions on strings, which lie in such a memory and end in a zero byte.
--
-- - Libc.Time: time.c, over the readings of a clock; Delay is about udelay and mdelay, Reading about
--   getTime.
-- - Nmath: src/lib/libnmath/arithmetic/arithmetic.c. Each function with a loop takes rounds; Gcd and
--   Log show how many are enough, and Prime and Inverse what isPrime and multiplicative_inverse
--   return.
-- - Bakery: src/lib/liblocks/bakerylock.c, as a step relation: any number of cores, each at a program
--   point, make one access to the shared arrays at a time, in any order. Bakery.Invariant and
--   Bakery.Moves have what every step keeps, Bakery.Exclusion that one core is inside.
-- - Posix: src/lib/libposix/src. The supervisor calls are answered by a parameter, Posix.Kernel, which
--   also records them. Posix.Timespec is posix_utils.c, with the order of times (Order), their sums
--   and differences (Difference) and ticks (Ticks); Posix.Semaphore is posix_semaphore.c,
--   Posix.Mqueue posix_mqueue.c and Posix.Pthread posix_pthread.c. The timed functions share a loop
--   that recurs on the ticks.
-- - Driver: src/driver/driver.c. The driver table is the list of its devices, whose own functions
--   are parameters; a run of the driver core records the calls of these. Driver.Order follows one
--   order at a time, and Driver.Order.All the loops over all the orders.
-- - Driver.Console: src/driver/console/stdcon.c, src/lib/libc/stddev.c and the log in memory,
--   src/driver/console/stdlog_membuf/stdlog_membuf.c; Console.Dump follows what is logged to the print.
-- - Driver.Watchdog and Driver.Schedclk: watchdog.c and schedclk.c of src/driver, per core;
--   Driver.Irq: src/driver/interrupt/interrupt.c; Driver.Plic: src/driver/interrupt/plic/plic.c, its
--   registers as words; Driver.Led: src/driver/onboardled/onboardled.c.
-- - Hal: src/platform/mega_avr/common/hal, over registers as bytes by their address. Hal.Clk has the
--   clocks of the peripherals of two chips. Hal.Gpio is
--   gpio/gpio.c, with what each call does to the pins of its port (Pins), which pins the callers hold
--   (Owners) and that none is held twice (Exclusion); Hal.Adc is adc/adc.c, Hal.Uart uart/uart.c
--   and Hal.Spi spi/spi.c, which takes its pins from Hal.Gpio; Hal.Timer is timer/timer.c with its
--   headers and pwm/pwm.c, Hal.Wdt wdt/wdt.c. Hal.Bits has the operations on bytes as
--   tables over all bytes.
-- - Hal.Prci and Hal.Oscillators: pll.c and hfosc.c of src/platform/sifive/common_fe310/hal/prci and
--   src/driver/sysclk/sysclk_prci/sysclk_prci.c. Prci has the choice of the factors, with its loops (Loops)
--   and what they find (Nearest); Oscillators has the registers, with the clock that drives the
--   core (Running) and the frequency that is read (Frequency).
-- - Visor: src/visor/workers/vcall/visor_call.c, and dp_init and sp_init of src/lib/libresource.
-- - Driver.Sysclk: src/driver/sysclk/sysclk.c, a linked list of callbacks through the nodes. Chain
--   has the joining of the list, Leave the leaving, and Cycle what a second registration does.
-- - Driver.Interrupt: src/driver/interrupt/interrupt_controller.c, the controller that is attached
--   and the calls of its functions; Attached has the states that are reached.
--
-- Common has the shared helpers, Status the status codes of src/include/status.h, and Tests runs of
-- the code and instances of the theorems.
--
-- The build that is modelled has 32-bit `size_t` and `int`, HELIOS_USE_DYNAMIC and no
-- HELIOS_ANTI_DEADLOCK, as the Helios demonstration projects configure it. Addresses are numbers. A
-- value of `mutex_val` is an unbounded integer, since its overflow would need 2^31 nested locks.
-- Interrupts are not modelled, and neither are the other cores outside of Bakery: between two steps of a
-- function the state is its own. Not modelled are the other drivers of particular hardware, the architecture
-- and start-up code, and the input and output of the C library.
pub mod Common
pub mod Status
pub mod Hal
pub mod Helios
pub mod Libc
pub mod Nmath
pub mod Bakery
pub mod Posix
pub mod Visor
pub mod Driver
pub mod Tests
