-- ===== src/Lib.antt =====
-- Nachos: the simulated machine and the parts of the operating system that run on it.
--
-- The file system keeps, in sectors 0 and 1 of a disk of 1024 sectors, the headers of a bitmap of free sectors and of a
-- directory of ten entries. A file is a header in a sector of its own and up to 30 data sectors. Creating a file takes a
-- sector and an entry and then the data sectors; removing it gives them back. The machine runs MIPS instructions:
-- each is fetched through the address translation, decoded by two tables and executed on 40 registers; an
-- exception enters the kernel and returns. Simulated time goes on with each instruction and each enabling of interrupts; the
-- devices ask for interrupts at later times. Threads share data under locks, made of semaphores.
--
-- - Base: library names passed on, tests on numbers, lists measured by native numbers, single bits, and the
--   binding of results that may fail.
-- - Containers.Linked (code/lib/list.h, code/lib/list.cc): List and SortedList on a memory of list elements. Cells, Adding,
--   Removing, Inserting and Insertion follow the elements; Refine compares every call with the same call on a sequence,
--   for which Containers.Sequence has Append and Remove.
-- - Containers.Hash (code/lib/hash.h, code/lib/hash.cc): the hash table on buckets that are sequences, for any two functions that give
--   an item its key and a key its hash. Buckets, Place, Rehash, Insert and Remove are about it.
-- - Bitmap (code/lib/bitmap.h, code/lib/bitmap.cc): the record Bitmap has the class's fields; Bit has Mark, Clear and Test,
--   Search has the constructor, FindAndSet and NumClear, SelfTest the method of that name.
-- - Filesys.Header (code/filesys/filehdr.h, filehdr.cc): Allocate and Deallocate on the bitmap, ByteToSector. Alloc and
--   Dealloc are about them.
-- - Filesys.Name: strncmp and strncpy as the directory uses them, on names that are lists of characters.
-- - Filesys.Directory (code/filesys/directory.h, directory.cc): the table of entries. Lookup describes it as a
--   function from names to sectors.
-- - Filesys.Volume (code/filesys/filesys.cc): the record Disk is what the disk holds between two operations, the free map, the
--   directory and a header in each sector. format is the constructor, create, open_file and remove_file
--   are Create, Open and Remove. Sound has the invariant that every marked sector has one owner.
-- - Filesys.OpenFile (code/filesys/openfile.cc): Seek, Read, Write, ReadAt and WriteAt on a disk that is what each sector holds.
--   Sectors is about the loops over the sectors, Reading and Writing about ReadAt and WriteAt, Round about their combination.
-- - Machine.Interrupt (code/machine/interrupt.h, interrupt.cc, stats.h, timer.cc): the pending interrupts and the clock. Due, Requests and
--   Loop are about CheckIfDue, Clock and Tick about the clock, Rearm about the timer.
-- - Machine.Word: 32-bit words. An int is its bit pattern, a number below 2 ^ 32, and the wrap-around is written out.
-- - Machine.Mult (code/machine/mipssim.cc, Mult).
-- - Machine.Mips (code/machine/mipssim.h, mipssim.cc, machine.cc, translate.cc): Tables and Decode are the decoder,
--   Execute and Switch the cases of OneInstruction, Processor the machine around them. Reach, Contain and Safe
--   follow the register file, Arith, Unaligned, Flow and Memory are about single instructions.
-- - Machine.Tlb (code/machine/translate.h, translate.cc, machine.cc): Translate with USE_TLB, and the replacement by
--   FIFO or LRU flags.
-- - Threads.Lock (code/threads/synch.cc): Semaphore and Lock, with the steps of threads that acquire and release one lock.
--   Counting, Fair and Exclusion are about it.
-- - Threads.Scheduler (code/threads/scheduler.cc, code/lib/list.cc): the ready lists of the four policies; Ready is about
--   them.
-- - Threads.Life (code/threads/thread.cc, scheduler.cc): Fork, Yield, Sleep and Finish up to the switch, and CheckToBeDestroyed. Turns
--   and Carcass are about them.
-- - Threads.Condition (code/threads/synch.cc, and testBarrier of code/threads/kernel.cc): Condition with its barrier; Broadcast and
--   Barrier are about it.
-- - Userprog.AddrSpace (code/userprog/addrspace.cc, noff.h): the page table of a program and its first registers. Isolation and Start are
--   about them.
-- - Tests: concrete runs.
--
-- Loops run on the number of rounds left, which is the array's length or, in Mult, the 32 of the source. The loops over linked
-- elements and over due interrupts take fuel: one more than the elements, with the one a call adds, and one for each pending
-- interrupt, are shown to be enough. A failed ASSERT, a write outside an array, and a read through a pointer to no element
-- are a missing result, and so is an overflow of an int that C++ leaves undefined: in DIV, in the clock and in the end of a
-- request for bytes. The processor takes the address translation, the exception handler and
-- the processor mode as the record Kernel; translation may change anything but the registers, and its ASSERT may fail. An address space takes
-- the answer of Create for its page file as a parameter. The interrupts take the device handlers, the thread switch and the delayed load as the record Devices.
--
-- Not modelled: the stacks and registers that a switch of threads exchanges, the page faults and
-- system calls, and what only prints or calls the host. The memory that a new header, table or buffer
-- starts with is an argument, since the source leaves it as it is.
pub mod Base
pub mod Containers
pub mod Bitmap
pub mod Filesys
pub mod Machine
pub mod Tests
pub mod Threads
pub mod Userprog
