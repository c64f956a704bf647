-- ===== src/Lib.antt =====
-- AgnostOS: a model of the kernel's core and what holds of it.
--
-- The kernel boots from UEFI, copies the firmware's memory map, hands out physical frames from it,
-- and then runs one loop: interrupts put input bytes into queues and count timer ticks, the shell
-- polls the queues, and a cooperative scheduler runs tasks. The parts, and the files that model them:
--
-- - Task: src/task/mod.rs, src/task/stack.rs, src/task/context.rs. `Task.Scheduler` is the struct
--   Scheduler with one function per method (spawn, wake, cancel, reap, run_next, run_ready, stats);
--   a task's body is a function from its own number of runs to an action. Task.Stack is the first
--   frame of a task. The files below Task/Scheduler prove what their names say, Woken what
--   the clock and its own answer make of a task's state.
-- - Memory: src/memory.rs. A snapshot is the list of the live entries of the fixed table. Pieces and
--   Reserve follow a reservation address by address, Errors says when it fails, Copy follows the
--   copy of the firmware's map, Summary the totals.
-- - Frame: src/frame.rs. The free list and the managed ranges as lists; `covers` is the set of
--   addresses of a list. Table has the index operations, Freed and Release a release, Touch and
--   Refuse its errors, Allocate and Contiguous the allocations, Boot the construction, Global the
--   functions on the kernel's one allocator. Uses the ranges of Memory.
-- - Input: src/mouse/mod.rs and src/keyboard/mod.rs. Packet and Stream are the mouse protocol, Queue
--   the path from the interrupt to `poll`, Ps2 with its Handshake the controller, Keyboard with its
--   Keys the key events.
-- - Timer: src/timer/mod.rs and src/interrupts/pit.rs.
-- - Graphics: src/graphics/framebuffer.rs, src/graphics/drawing.rs, the colors of src/color/mod.rs,
--   and the mouse cursor of src/mouse/mod.rs.
-- - Heap: src/allocator/mod.rs. Heap, Setup, Usable, Image and Initialize are the choice of the heap
--   by operations of Memory and Frame; Heap.FreeList is the allocator in it, with one file for each
--   operation and Traffic for sequences of them.
-- - Paging: src/paging.rs on Frame and Memory. Range and Layout are the virtual ranges, Arena the
--   storage of page tables, Pages the operations on one page, Identity `map_range`, Boot the
--   functions of `initialize`, AddressSpace and Switch what it maps, TableMapper a small mapper.
-- - Commands: src/commands/parser.rs. Tokens, Parsing and Completion.
-- - Console: src/console/mod.rs. Console is the output, Editing the input line, Browsing the recall of
--   commands, zoom and completion, Emergency the writer of panics; the other files prove what their
--   names say, by way of Buffer, a text with a cursor.
-- - Shell: src/shell/mod.rs and `run_command` of src/commands/mod.rs, on Console, Commands and the
--   events of Input. Browsing follows the command that is shown, Sync says what each key
--   means, Recall and Keys prove what holds for a key, and Run puts the commands in.
-- - Interrupts: src/interrupts/pic.rs and src/interrupts/controller.rs, the writes of each operation;
--   Delivery has the chips that they are written to, as their data sheet describes them.
-- - Base: numbers, tests, lists, results, bytes and words that these share.
--
-- Numbers are natural numbers; where the source checks, saturates or wraps a word, the model does the
-- same at 2^64 (`checked`, `saturating`, `%`). Where it subtracts without a check, the invariants
-- show that the difference is not negative.
--
-- Code that is not in this repository is a parameter: the ring buffer of the `ringbuf` crate
-- (Input.Ring, with what its documentation promises), the scancode decoder of `pc-keyboard`, the
-- I/O ports (Input.Ps2, with a log of the writes), the page mapper of the `x86_64` crate
-- (Paging.Mapper, with what its documentation promises of entries that are present), and the width of
-- a glyph. The calls that
-- draw text are a list of drawings, and the tables that are cleared a list of addresses. Loops over a
-- fixed number of turns are recursions on that number, as `PS2_READY_POLL_LIMIT` for the controller's
-- polls; `run_next` looks at the 64 slots; the fuel of `sleep_ms` is one more than the halts that the
-- ticks to wait for can take, and that of `map_range` the number of its pages, each of which is proved
-- to be enough.
--
-- Widths of screens and glyphs are divisors; the source constructs no framebuffer of width 0
-- (`PixelSize::try_new`), and the model's division by 0 stands for no behaviour of it. An address
-- from 2^52 on, which the source's `PhysAddr::new` refuses with a panic, is passed
-- on, and the theorems on mappings exclude it. The free list of the heap is a list of chunks: that
-- the header of a chunk may be written to a misaligned address is not part of it.
--
-- Not modelled: the assembly of the context switch and the processor's tables, the bitmaps of glyphs,
-- printing, and, for now, the rest of the shell's loop and the profiler.
-- Locks are taken and released within one operation, and the kernel has one processor: an operation
-- is one step. Interrupt handlers appear as the operations on the queues that they call.
mod Base
pub mod Task
pub mod Memory
pub mod Frame
pub mod Input
pub mod Timer
pub mod Graphics
pub mod Heap
pub mod Paging
pub mod Commands
pub mod Console
pub mod Interrupts
pub mod Shell
