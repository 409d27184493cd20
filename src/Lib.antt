-- ===== src/Lib.antt =====
-- A verification library for the kernel of the simple file manager: C code that is modelled by
-- functions on the state it works on, with an access outside an object as a fault.
--
-- Base holds what the other modules share, with the tests on numbers, arrays as lists, the outcome
-- of a run (done, fault, out_of_fuel) and integers. Status holds the error numbers of src/status.h.
--
-- Memory/Bytes: memset, memcmp and memcpy of src/memory/memory.c.
-- Memory/Heap: src/memory/heap/heap.c and kheap.c. A heap is the bytes of its block table and the
--   address of its pool; the contents of the pool are not modelled here. Below it, FirstFit is about the
--   search, Segments about the table as a sequence of free blocks and chunks, Alloc and Kernel about
--   heap_malloc_blocks, heap_malloc and heap_free, Create about heap_create and kheap_init.
-- Strings: src/string/string.c. A pointer is the list of the bytes that can be read from it.
-- Disk: src/disk/disk.c, with the drive as a function from sector numbers to sectors; the waits for
--   its ready bits are taken to end. Disk/Streamer: src/disk/streamer.c.
-- Fs/PathParser: src/fs/pparser.c. The allocations, which the code does not test, are taken to
--   succeed.
-- Fs/Fat16: src/fs/fat/fat16.c. A volume is the header, the root directory, the drive, and the
--   number of calls of kzalloc that still succeed. Fs/Fat16/Table is the file allocation table, with
--   the entries, the allocation and the release of chains in modules of their own. Below Fs/Fat16
--   are also Names (8.3 names), RootDirectory (the entries, their bytes, the slots, and the mount),
--   Files (opening) and Contents (reading, writing, seeking and deleting). The mount and an open for
--   reading take the fuel of their `while (1)` over the entries of a directory.
-- Fs/File: src/fs/file.c over a record of a file system's functions; Fs/Mount fills it with those of
--   fat16.c. The private data that a function changes is returned by it.
-- Keyboard: the buffer of src/keyboard/keyboard.c, of the process that is current; below it, Classic
--   and Scancodes are about the table and the interrupt of src/keyboard/classic.c.
-- Memory/Paging: src/memory/paging/paging.c. A machine is the heap, the memory as its 32-bit words by
--   their addresses, and the directory in use. Directory is about one page, Ranges about ranges,
--   Blocks and Pages about allocations of at most a page, Build about a directory under construction,
--   Identity and Copy with Duplicate about the two operations that construct one.
-- Task: the list of tasks of src/task/task.c, a function from addresses to tasks. Linked is about the links, Removal with Deletion about task_list_remove,
--   Rotation about one interrupt of the timer and Turns about many.
-- Process: src/task/process.c. A kernel is the machine, the list of tasks, the processes by their
--   addresses, and the array of their addresses. Tasks has the operations of task.c that work on
--   memory too, Cloning process_free and process_fork; Slots is about a free slot, Creation about
--   task_new and Fork about a child's pages.
-- Gdt and Idt: src/gdt/gdt.c and src/idt/idt.c. Decoding reads a segment descriptor as the processor
--   does; Vectors is about the interrupt table, Commands about the table of the system calls.
--   Idt/Timer is the timer's interrupt, with the routine of src/idt/idt.asm around the handler and
--   task_return of src/task/task.asm: the registers that user code goes on with.
-- Terminal: the screen of src/kernel.c, a list of cells with a cursor.
-- Isr80h: sys_readline of src/isr80h/process.c; the size is an argument, the keys are a list of what
--   keyboard_pop gives each time that the processor is woken, and the call of copy_to_task is part of
--   the result, as the bytes that it gets. Editing is about the line, Buffer about its release.
-- Tests holds examples at concrete inputs.
--
-- Loops whose rounds are not counted run on fuel: a transfer of n bytes has n + 1 rounds at most,
-- since each moves a byte; the path parser takes a byte of the path in each round; a chain of the
-- table has at most 65528 clusters, and its release is given 65536 rounds.
--
-- Not modelled: the list of file systems, the release of memory in the FAT16 driver, the load of a
-- program and the copies between address spaces, the system calls but sys_readline, the list of
-- keyboards, the calls that start the kernel, and all other assembly, whose registers are fields of a
-- state where C code sets them. A panic does not return and is a fault, as is an access through a null
-- pointer. The acknowledgements of interrupts are ports that the kernel writes, and left out.
pub mod Base
pub mod Status
pub mod Memory
pub mod Strings
pub mod Disk
pub mod Fs
pub mod Gdt
pub mod Idt
pub mod Process
pub mod Isr80h
pub mod Task
pub mod Terminal
pub mod Tests
pub mod Keyboard
