-- ===== src/Lib.antt =====
-- TieZhu OS is a 32-bit kernel for one processor. This library models its core in C: the data that the
-- kernel keeps, and the functions that change it. Assembly and port I/O are outside.
--
-- The parts and how they interact
-- - Two containers carry the rest: the bitmap (kernel/bitmap.c) and the doubly linked list
--   (kernel/list.c), whose nodes stand inside the structures they link.
-- - The scheduler (thread/thread.c) keeps a list of ready threads; the timer interrupt
--   (device/timer.c) and the calls that block or yield invoke `schedule`. Process numbers come from a
--   bitmap. Semaphores and locks (thread/sync.c) block and wake threads.
-- - The memory system (kernel/memory.c) keeps a bitmap of pages for each pool, the page tables, and lists
--   of free blocks on top for `sys_malloc` and `sys_free`.
-- - A queue of bytes (device/ioqueue.c) stands between the keyboard (device/keyboard.c) and its readers,
--   and inside each pipe (shell/pipe.c). A descriptor of a thread leads to the file table (fs/file.c),
--   whose entry is a pipe or an open file with an inode (fs/inode.c). The contents of files lie in
--   blocks of 512 bytes on the disk (fs/fs.c).
-- - The string functions (kernel/string.c) and formatted output (lib/stdio.c) work on memory by address.
--
-- Files and what they model
-- - Base: library names, and what the parts share: tests, lists over native numbers, memory as a
--   function (Base/Store), integers, failure, bits and masks.
-- - Bitmap: kernel/bitmap.c, lib/kernel/bitmap.h. `BitMap` is the struct, with the bytes by index.
--   `bitmap_set_ex` is `bitmap_setEx`, `bit_map_scan` is `bitMap_scan`. Bitmap/Laws: single bits and
--   runs; Bitmap/Scan: the search.
-- - LinkedList: kernel/list.c, lib/kernel/list.h. `Links` is the memory of all nodes with the interrupt
--   flag, `Ends` are the two sentinels of a list. LinkedList/Chain: lists as paths in memory;
--   LinkedList/Change: insertion and removal; LinkedList/Walk: the loops.
-- - Thread: thread/thread.c, thread/thread.h, device/timer.c, and the activation of page directories from
--   userprog/process.c. `Task` is `task_struct`, by address in `Kernel`. `schedule` is the sequence of
--   `expire`, `wake_idle` and `switch_next`. Thread/Invariant, Thread/Ops, Thread/RoundRobin: the
--   scheduler; Thread/Pids: process numbers.
-- - Sync: thread/sync.c, thread/sync.h. The functions are cut where a thread can be interrupted, and
--   `Pc` says where each thread is; `System` has the scheduler's state too, and `sema_down` and `sema_up` call its
--   `thread_block` and `thread_unlock`. Sync/Steps has the step relation and the reachable states; Sync/Invariant and
--   Sync/Keep the invariant of the lock, Sync/Blocked that of the threads that wait; Sync/Safety what follows.
-- - IoQueue: device/ioqueue.c, device/ioqueue.h. A call is modelled up to where its thread waits.
--   IoQueue/Contents gives the list of bytes that a queue stands for.
-- - Files: the descriptors and the file table of fs/file.c and fs/fs.c, with shell/pipe.c and
--   `update_inode_open_cnts` of userprog/fork.c. Files/Defs, Files/Pipe and Files/Calls hold the code, Files/Table,
--   Files/Open, Files/Transfer and Files/Close the theorems.
-- - CString: kernel/string.c, lib/kernel/string.h. CString/Strings: strings in memory.
-- - Keyboard: device/keyboard.c, the handler of the interrupt with its state.
-- - Paging: kernel/memory.c, lib/kernel/memory.h. Paging/Defs: pools and page tables, entries by the
--   address at which the page directory maps itself; Paging/Pages: whole pages; Paging/Heap: blocks.
-- - Fs: fs/inode.c and, of fs/fs.c and fs/file.c, `file_write`, `file_read`, `block_bitmap_alloc`, `bitmap_sync`,
--   `path_parse` and `path_depth_cnt`. Fs/Disk is what `ide_read` and `ide_write` of device/ide.c do with
--   sectors.
-- - Fs/Dirs and Fs/Removal: fs/dir.c, the entries in the blocks of a directory. Fs/Dirs/Added: a stored
--   entry is found; Fs/Removal/Listing: the list of the entries.
-- - Fs/System, Fs/Search, Fs/Opening, Fs/Unlink, Fs/Making and Fs/Cwd: the calls of fs/fs.c over the state
--   `FileSystem`, with `dir_open` and `dir_close` of fs/dir.c and the inode bitmap of fs/file.c. `Allocator` is what
--   `sys_malloc` gives for an inode in a state. Fs/Views: what is seen of an inode by its number; Fs/Follow and
--   Fs/Found: where a path leads; Fs/Climb: the working directory; Fs/Released: the bits of released blocks.
-- - Fs/Io: `sys_write` and `sys_read` of fs/fs.c, which lead to a pipe, the console, the keyboard or a file;
--   Fs/Io/Piped: what they do on the ends of a pipe.
-- - Fs/Format: `partition_format` of fs/fs.c; Fs/Format/Layout: where the tables and the data lie.
-- - Ide: `ide_read` and `ide_write` of device/ide.c, with the controller as a parameter. Ide/Command: what the
--   controller does with its registers; Ide/Chunked: the commands add up to what Fs/Disk has.
-- - Process: userprog/wait_exit.c. `Machine` joins the states of Thread, Files and Paging, which the end of a
--   process changes. Process/Waiting: the parent's wait; Process/Exit: an exit that a parent waits for.
-- - Shell: Shell/Path is `wash_path` and `make_clear_abs_path` of shell/buildin_cmd.c, Shell/Command is
--   `cmd_parse` of shell/shell.c; Shell/Washed: where a path leads, Shell/Command/Parsed: the words of a line.
-- - Stdio: lib/stdio.c, `itoa` and, in Stdio/Format, `vsprintf`. Stdio/Numerals: what the digits denote.
-- - Tests: each theorem with conditions at a concrete input.
--
-- How the code is read
-- - Integers of 8, 16 and 32 bits are natural numbers with their wrap-around written out; where the code
--   lets a subtraction wrap, 2 ^ 32 is added first. Results that can be negative are `ℤ`.
-- - An address is a number, and `null` is 0. Memory is a function of addresses.
-- - A failed ASSERT, which stops the kernel, is `none`, and so is a round that would spin for ever.
-- - Names and paths go through local buffers of 16 and 512 bytes that the source does not test; a name or path that
--   runs over one, or has no room for its 0, is `none`.
-- - Interrupts are off in the functions of the scheduler, which are therefore one step each. The
--   interleavings of threads are modelled for locks, over the state of the scheduler.
--
-- Fuel and bounds
-- - Loops with a known number of rounds recurse on it. The second loop of `bitMap_scan` goes on by
--   one bit in each round, so eight rounds for each byte of the map are enough.
-- - The loops along a list (Walk) and to the end of a string (CString) have fuel: the theorems take
--   any fuel above the length of the list or string, and show that the result is then reached.
-- - Each round of `ide_read` and `ide_write` moves at least one sector, and they have as many rounds as sectors.
-- - `itoa` has 32 rounds: a number below 2 ^ 32 has at most 32 digits to any base from 2 on, as its theorem
--   shows.
-- - `search_file` follows one name in each round and has as many rounds as the path has bytes; `sys_getcwd` goes up one
--   directory in each round, and its theorem takes any fuel from the depth of the directory on.
-- - The loops of `cmd_parse` and `wash_path` move by at least one byte in each round; the theorems show that as
--   many rounds as the text has bytes are enough.
-- - The loops of `file_write` and `file_read` move at least one byte in each round, and have as many rounds as
--   there are bytes; the theorems show that all bytes are moved.
--
-- What is not modelled
-- - Assembly (mbr.S, loader.S, kernel/kernel.s, kernel/print.S, thread/switch.S), descriptor tables and
--   the registers of devices: they are the processor's. The stacks of threads and what `switch_to` saves
--   are left out with them.
-- - The mounting of a partition in fs/fs.c, the partition scan of device/ide.c, exec, the copy of an
--   address space by fork, and the commands of the shell.
-- - The locks of the pools, of the heap and of the process numbers: their calls are taken one at a time.
pub mod Base
pub mod Bitmap
pub mod LinkedList
pub mod Thread
pub mod Sync
pub mod IoQueue
pub mod Files
pub mod CString
pub mod Keyboard
pub mod Paging
pub mod Fs
pub mod Stdio
pub mod Shell
pub mod Process
pub mod Ide
pub mod Tests
