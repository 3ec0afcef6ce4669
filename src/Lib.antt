-- ===== src/Lib.antt =====
-- A model of parts of skhuos, a small 64-bit kernel in C, with the theorems that make them correct.
--
-- The parts and their files:
-- - Common, Common.Tests, Common.Lists: the names that all modules share, Boolean tests on numbers, lists.
-- - CString (common/String.c, common/util.c): copying and reversing blocks of bytes, which are
--   lists, and comparing strings (CString.Compare).
-- - LinkedList (kernel/lib/LinkedList.c): the intrusive list in a memory of nodes. LinkedList.Spec is its
--   abstract view, a sequence of ids; LinkedList.Refine compares the two.
-- - Queue (kernel/lib/Queue.c): the ring of items in a block of bytes. Queue.Spec is a bounded FIFO.
-- - Process (kernel/proc/Process.c, Process.h): the scheduler. Process.Switch models blocking, waking, the
--   timer and switching; Process.Create the making of processes and of the pages they may use; Process.Exit
--   their end and the collector; Process.Inv is the invariant, Process.Leave, Timer, End and Lifecycle show
--   that the operations keep it, Process.Reach has the operations as a step relation. Process.Stale is about the
--   registers of a new process.
-- - Process.Mutex (kernel/proc/Sync.c): the recursive mutex, on the scheduler's state.
-- - Screen (common/Print.c): the text screen and its cursor; Screen.Bounds and
--   Screen.Digits have its theorems.
-- - Keyboard (kernel/drivers/Keyboard.c): scan codes (Keyboard.Shift), and the key queue with the process
--   that waits for a key (Keyboard.Input).
-- - Pit (kernel/drivers/PIT.c): the interval timer; Pit.Watch is about its stopwatch.
-- - Syscall (kernel/syscall/Syscall.c): the system calls; Syscall.Check is about user pointers.
-- - PageTable (loader/Page.c): the page tables for long mode; PageTable.Identity is about their entries.
-- - Descriptor (kernel/arch/Descriptor.c, Descriptor.h): the interrupt descriptor table, and Descriptor.Tables the other
--   tables; Descriptor.Gates and Segments are about what the processor makes of them.
-- - Interrupt (kernel/arch/HandlerImp.c, HandlerImp.h): the table of handlers, the dispatch of interrupts, and
--   exceptions. Interrupt.Handlers has the handlers of the timer, the keyboard and the disks, with their registration at
--   boot; Interrupt.Frame, Keeps, Sound and Fault are about what they do to the scheduler.
-- - Boot (loader/32bit.c, tools/imagemaker/ImageMaker.c): the boot information. Boot.Image is the image maker, Boot.Load
--   the loader's copy of the kernel and its clearing of memory; Boot.Info, Copy, Startup and Kernel follow the bytes
--   of the kernel from its file to memory.
-- - Sectors (kernel/drivers/Disk.h): buffers, DWORDs in them (Sectors.Dword), and the interface `Device` of a disk with
--   its law `Works`.
-- - Fat (kernel/fs/FAT.c, FAT.h): the file system. Fat.Format, Fat.Alloc and Fat.Files have its functions, Fat.Io the
--   reading of clusters and of the directory, Fat.Store the view as a store of named files, Fat.Write, Fat.Update,
--   Fat.Create, Fat.Make, Fat.Delete, Fat.Listing, Fat.Fail and Fat.Fresh the theorems.
-- - Machine: the ports, the interrupt flag and the scheduler, as the disk driver calls them.
-- - Pic (kernel/drivers/PIC.c): the interrupt controllers.
-- - Disk (kernel/drivers/Disk.c, Disk.h): the driver. Disk.Wait has the waits, Disk.Transfer the commands;
--   Disk.Keeps, Disk.Count and Disk.Clock are about the mutex, the transfers and the polling.
--   Disk.Ata has a disk that keeps the ATA protocol, and what the driver's transfers do on it.
-- - Shell (kernel/shell/Shell.c): the input line (Shell.Line) and the choice of a command (Shell.Lookup),
--   and the commands that start processes (Shell.Tasks; Shell.Tasks.Banner
--   is about the processes of the banner).
-- - MemoryMap (kernel/mm/Memory.c): the bitmap of the pages in use (MemoryMap.Marks), and the probe for the end of memory
--   (MemoryMap.Size).
-- - Editor (kernel/shell/editor.c): the editor's text and command line; Editor.Bounds has its invariant.
-- - Tests: the theorems at concrete inputs.
--
-- How they interact: the scheduler keeps processes on linked lists, used through LinkedList.Spec, and the
-- ids of ended processes in a queue, used through Queue.Spec. The mutex blocks and wakes processes with
-- the scheduler's operations and holds its waiters in a linked list. The keyboard keeps characters in a
-- queue, and its interrupt wakes the waiting process by the scheduler's operation. A system call writes to
-- the screen or calls the scheduler. The file system reads and writes through the interface of Sectors; the
-- shell and the editor call the file system. The disk driver uses the
-- stopwatch of Pit and acknowledges interrupts by Pic. Interrupt puts the timer, the keyboard and the disks on one
-- board, whose handlers change the scheduler's state; an exception in a user program ends its process.
--
-- State: `Kernel` is the static variables of Process.c with the PCB pool, the registers, the interrupt
-- frame and the page flags that the code changes. A pointer to a PCB is the process id. An operation takes
-- the state and gives the new one; `none` stands for a loop that does not end. A context switch ends an
-- operation; `Keyboard.resume` is the part of `getKey` behind one. Interrupts come between operations, as
-- the code clears IF inside them.
--
-- Hardware: the keyboard controller is the sequence of the bytes that it will deliver; the bytes that the
-- timer's port delivers are arguments; memory with the screen in it is a function from address to byte.
-- The disk driver runs on any machine that has the operations of `Machine`; the disk's interrupts come behind any of
-- its accesses. The file system's theorems take a disk whose transfers are complete (`Works`); FAT.c does
-- not look at what a transfer returns, so that nothing is said of a disk that fails. The driver on a disk that keeps the ATA
-- protocol, is ready and reports no error is such a disk (Disk.Ata.Device), and the tests run the file system on it.
-- The image maker runs on any `Host` with the C
-- library's file operations; that the start of the machine left the image in memory, but for the data that the
-- boot sector and the loader change, is `InMemory`, and that a machine's
-- ports leave the scheduler alone is `Scheduled`.
--
-- Fuel: the loop of `removeList` gets one round more than the list has nodes; the search of
-- `createProcess` gets a round for each of the 1024 slots. That these are enough is part of the theorems.
-- `scan_name` gets a round for each of the 100 characters. The polling loops of the disk driver get `rounds`
-- rounds; how many are enough depends on the clock, and is stated in terms of it. `strcmp` gets a round for each
-- character of the known string and one for its NUL.
-- Loops over a counted range recur on the rounds that are left.
--
-- Numbers are natural numbers; where C wraps round, `% 2 ^ w` is written out.
--
-- Not modelled: the processor's pipeline and TLB, assembly but for `switchContext`, the text of the
-- banner, what the editor draws, and the sequences of initialisation in the two `Main.c` but for the handlers
-- that are registered.
pub mod Common
pub mod CString
pub mod LinkedList
pub mod Queue
pub mod Process
pub mod Screen
pub mod Keyboard
pub mod Pit
pub mod Syscall
pub mod PageTable
pub mod Boot
pub mod Descriptor
pub mod Sectors
pub mod Fat
pub mod Machine
pub mod Pic
pub mod Disk
pub mod Shell
pub mod Editor
pub mod Interrupt
pub mod MemoryMap
mod Tests
