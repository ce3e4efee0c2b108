-- ===== src/Lib.antt =====
-- A model of ToyKernel, a 32-bit x86 kernel with its own memory managers, scheduler, system calls
-- and drivers, of the boot loader's second stage, and of the library of user programs. All source
-- paths below are from the repository's root.
--
-- The kernel's parts, bottom up, with the module that models each:
--   Memory    memory as bytes, and memcpy, memset and memcmp (src/kernel/lib/string.c)
--   Boot      what the boot loader hands over (src/kernel/boot/bootparams.h)
--   Pmm       frames of 4096 bytes in a bitmap (src/kernel/mm/pmm/pmm.c): State holds the statics
--             and one bit, Search the two searches, Alloc reserving, allocating and giving back,
--             Init the start-up
--   Vmm       two-level page tables in frames from Pmm (src/kernel/mm/vmm/vmm.c): Entry the macros,
--             Tables the functions on a directory, Setup the start-up
--   Heap      malloc and free on pages mapped by Vmm (src/kernel/mm/handler/malloc.c)
--   Elf       the loader of user programs, on Pmm and Vmm (src/kernel/loader/elf.c)
--   Sched     tasks and their switching (src/kernel/scheduler/task.c), the timer's interrupt
--             (src/kernel/interrupts/pic.c) and the system calls (src/kernel/interrupts/syscall.c)
--   Screen    the text screen (src/kernel/drivers/display/screen.c)
--   Text      printf and str_to_int (src/kernel/lib/stdio.c and stdlib.c)
--   Drivers   ports, interrupt controllers, keyboard and clock (src/kernel/interrupts/pic.c and
--             io.c, src/kernel/keyboard/keyboard.c); Chip is an interrupt
--             controller by its data sheet, against which the writes of remap_pic are read
--   Gates     descriptor tables (src/kernel/arch/i686/gdt.c, tss.c and idt.c,
--             src/kernel/interrupts/idt.c) and the dispatch of interrupts
--             (src/kernel/arch/i686/isr.c and isrs_gen.c)
--   Start     HAL_Initialize, which sets all of these up (src/kernel/hal/hal.c and memory.c)
-- The boot loader's second stage (src/bootloader/stage2):
--   Disk      sectors through the BIOS (disk.c)
--   Fat       the FAT12 file system on Disk (fat.c): Read reads an open file, Open opens and closes,
--             Names holds the names of a directory, Listing and Start the rest
--   Stage2    the memory map (memdetects.c), and the loading of the kernel and of the user's program
--             (main.c), on Fat, Pmm and Vmm
-- User programs (src/userland/lib):
--   User      the system call wrappers, calloc, print and readline (syscall.c, stdlib.h, stdio.h), on
--             the system calls of Sched; vprintf is Text.Formatter, beside the boot loader's printf
-- Shared:
--   Common    tests on numbers, machine words, binary digits and lists
--
-- State and operations. Memory is a function from addresses to bytes, and the bitmap, the page
-- tables and the pages handed out all lie in it, so that a stray write of one part would be seen by
-- the others. The statics of a C file are a record; a function of the file is a function of the same
-- name, in snake case, that takes the record and returns it with its result in front. A pointer is
-- an address, the one that the program uses: a frame is reached at its own address, as under the
-- identity mapping, and the kernel with its bitmap at the linker's addresses from 0xc0000000 on. That
-- the frames at 1 MiB are a second view of these is not modelled. The null pointer is 0, except that the list of heap blocks and the list of tasks
-- are lists in the order of their `next` pointers. A system call that waits, and `schedule` when
-- nobody can run, have an outcome of their own. A call of the BIOS is numbered, so that the same call
-- may fail and then succeed; a null pointer that is read through is an outcome as well. Arithmetic
-- on unsigned words wraps, written out.
--
-- Loops. A loop with a known number of rounds recurs on the rounds left. Three loops have another
-- bound: the digits of a number below 2 ^ 64 (64 rounds), the page count of `malloc_next_block`, a
-- byte (256 rounds, after which it repeats itself and `none` says so), and the tab (4 rounds). The
-- walk of `schedule` has as many rounds as there are tasks. The loop of `FAT_Read` has as many rounds
-- as bytes are asked for, since a round takes at least one. The search of a directory, its listing
-- and the loading of a file end only when the disk says so: they take a number of rounds, and what
-- they do without enough of them is a result of its own. For the root directory, one round more than
-- it has entries is enough, and for a file of fewer than 65536 bytes two rounds are.
--
-- Not modelled: assembly (boot sector, entry, context switch, trampolines), the effects of
-- privileged instructions other than CR3 and the paging flag, port reads of the clock, the boot
-- loader's older copies of the kernel's files, and the user program itself, an endless loop over
-- `readline` and `println`.
pub mod Common
pub mod Memory
pub mod Boot
pub mod Pmm
pub mod Vmm
pub mod Heap
pub mod Elf
pub mod Sched
pub mod Screen
pub mod Text
pub mod Drivers
pub mod Gates
pub mod Disk
pub mod Fat
pub mod Stage2
pub mod User
pub mod Start
