-- ===== src/Lib.antt =====
-- aexkernel: a verification library for the core of the kernel.
--
-- The parts, and the files that model them (paths of the source from the repository's root):
--   Kernel/Klist    kernel/klist.c, include/aex/klist.h: the list of pointers under indices.
--   Kernel/Cbuf     kernel/cbuf.c: the blocking circular buffer. The terminal and the serial port
--                   stand on it. One pass of a loop of `cbuf_read` or `cbuf_write` is `read_pass` or
--                   `write_pass`; Stream runs a writer's and a reader's passes in any order.
--                   Rounds has the passes with the event of Proc/Tqueue, Blocking runs them.
--   Kernel/Cbufm    kernel/cbufm.c: the circular buffer with one writer and many readers.
--   Kernel/Str      kernel/string.c: memory and C strings.
--   Kernel/Num      kernel/string.c: numbers in text.
--   Rc/Array        include/aex/rcparray.h: the array of reference counted cells on which the file
--                   descriptors, the handles and the mounts stand. Laws gives each macro's effect,
--                   Ledger its many users.
--   Rc/Table        include/aex/rcptable.h: the hash table of reference counted entries that holds the
--                   processes. Refines relates it to a map, Balance takes and gives back.
--   Kernel/Snprintf kernel/snprintf.c: formatted printing into a bounded buffer.
--   Kernel/Hook     kernel/hook.c: the functions that are called at the kernel's events.
--   Proc/Threads    proc/task.c: the table of threads, their statuses and counters.
--   Proc/Processes  proc/task.c: uses of a process in the table of processes, which is a Rc/Table.
--   Proc/Schedule   proc/task.c: the choice of the next thread. Next and Rounds describe the search,
--                   Choice the whole of `task_shed_choose`.
--   Proc/Tqueue     proc/tqueue.c, kernel/event.c: queues of threads that wait, over the statuses of
--                   threads in proc/task.c.
--   Sys/Irq         sys/irq.c: the handlers of interrupts, and the queue between their arrival and the
--                   workers. Service has the steps of arrivals and workers, Workers runs
--                   them in any order.
--   Fs              fs/fs.c, fs/fd.c: Types has the records and the driver's interface, Mounts the
--                   choice of a mount, Vfs the opening and use of descriptors and handles. They
--                   use Rc/Array and Kernel/Str as the source does.
--                   Path is `fs_to_absolute_path`. Syscalls, for fs/syscalls_fs.c, composes the
--                   processes, their descriptors and Vfs.
--   Mem/Frame       mem/frame.c: the bitmap allocator of physical frames.
--   Mem/Pool        mem/pool.c: the pieces of a pool of the heap. Search and Setting are the loops on
--                   the bitmap, Blocks what `_kmalloc` and `_kfree` do to a pool, Chain the
--                   pools that `_kmalloc` goes through.
--   Mem/Run         runs of free places, for both allocators.
--   Dev/Block       dev/block.c: requests to block devices. Reading relates `dev_block_read` to the
--                   bytes of the medium.
--   Dev/Names       dev/dev.c, dev/name.c: the table of devices and their names, over Rc/Array.
--   Dev/Char        dev/char.c: the calls on character devices, over Dev/Names.
--   Bits            the binary digits of the native numbers, for Mem.
--   Prelude         library names, the lists, options and machine words that all parts share.
--
-- Conventions. An integer of a type of w bits is its pattern, a number below 2^w, and wraps as the
-- source's does. A pointer into a chain or an array is the rest of a list, or an index; NULL is
-- `none` or `[]`. Text that runs under one spinlock from end to end is one atomic step; where a
-- reader only waits for a lock to be free, the file's comment says what is left out. `kmalloc` and
-- `krealloc` are taken to succeed. A read behind the end of a modelled memory gives 0, and a write
-- there does nothing; the theorems ask that the ranges lie inside where that matters.
--
-- Bounds and fuel. A loop over a list is recursion on the list. `digits_loop` has fuel for w + 1
-- digits, and w are enough from base 2 on. `swap_loop` has the length of the text, and
-- `write_loop` of Sys/Irq two rounds, of which the second ends the loop of one byte. The loops of
-- Kernel/Cbufm have one round more than bytes, as each round moves one at least. The foreach loops
-- take fuel as an argument, and the theorems hold for any fuel above the length of the list.
--
-- Not modelled. The functions of a file system, of a block device and of a character device are
-- parameters: any functions on any state. The drivers of drv/, the device tree, the queue of block
-- requests, the paging and the interrupt controllers of arch/x64, the creation of the heap's pools, the
-- parsing of ISO 9660 and ELF, and the console are left out: they are hardware access or parts that
-- the modelled code does not call.
pub mod Prelude
pub mod Kernel
pub mod Rc
pub mod Fs
pub mod Bits
pub mod Mem
pub mod Sys
pub mod Proc
pub mod Dev
