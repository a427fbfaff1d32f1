-- ===== src/Lib.antt =====
-- A model of the kernel and library code of ScalesOS, with the theorems that make it correct.
--
-- Parts and files (paths from the repository's root):
--   Prelude: shared names, Boolean tests, lists as C arrays, 32-bit words and their bits.
--   Ring, with Circular: kernel/src/util/types/ringbuffer.c. `write` and `read` are given a schedule,
--     one entry for each time the caller sleeps; a call that outlasts its schedule is `asleep`.
--   Pmm: kernel/src/mem/pmm.c, the physical frame allocator over its bitmap. A panic is `none`, and
--     so is a boot whose loop over a region never ends.
--   DynList: types/src/list.c, the growing array of pointers, with realloc and memmove on its cells.
--   Heap: libc/src/stdlib/alloc.c as the kernel builds it; the chain of blocks is a list of headers.
--   Ctype: libc/src/ctype/ctype.c, the character classes.
--   Tty, with Termios and Ctype: kernel/src/dev/tty.c, the line discipline of a terminal. Its two ring
--     buffers stand as the bytes put into them; Tty.Keys says what typing means.
--   Mem: libc/src/string, copying and C strings on a memory that gives each address its byte. A loop
--     over a string runs on fuel; one more than the length of the string is enough.
--   Pipe: kernel/src/fs/pipe.c, whose buffer is compared with that of Ring.
--   Shm: kernel/src/mem/shm.c, truncation of shared memory over the allocator of Pmm; the difference of the
--     sizes is an int32_t.
--   Tree: types/src/tree.c, nodes and trees by their numbers in a store.
--   Paths: kernel/src/util/path.c, on strings as lists of characters; the stack of segments has its top
--     first. A canonical form that does not fit into the buffer of 255 bytes is `none`.
--   Proc: kernel/src/proc/process.c. Fds are the descriptor tables, with sys_dup2 of
--     kernel/src/int/syscall.c; Sleep is the chain of sleepers with its pointers, whose walks run on
--     fuel (one more than its nodes is enough); Queues are the wait queues and the ready queue, whose
--     loops have a round for each process that waits. Signals are the pending, ignored and handled
--     signals, and Waitpid is waiting for a child; a shift by 32 or more and a read behind the table of
--     defaults are undefined behaviour, which is an outcome of its own. A signal to a finished process,
--     whose block node has been freed, has no outcome.
--   Vfs: kernel/src/fs/vfs.c, the tree of mount points by names; Search looks a path up through the
--     file systems, whose operations are a parameter, and follows symbolic links on fuel, one round for
--     each link in a row.
--   Socket: kernel/src/fs/socket.c, sockets by their numbers, each with its bytes as a list; the loops
--     run on fuel, of which two rounds are enough for a write that fits and three for a read that does
--     not block.
--   Paging: kernel/src/mem/paging.c, the directory as a function of the index with each entry's table
--     behind it, on the frames of Pmm. The last 4 MB of addresses show the tables and the directory itself,
--     which virt2phys follows; a map or unmap there writes over an entry of the directory, which is an
--     outcome of its own, like a page of 4 MB whose entry is taken for a table.
--   Mmap: kernel/src/mem/mmap.c on Paging, blocks by their numbers. The search for room runs on fuel;
--     a search that needs more is an outcome of its own.
--   Files: sys_read, sys_write and sys_seek of kernel/src/int/syscall.c, on the descriptors of Proc.Fds;
--     what the nodes' own operations do is a parameter, of which nothing is assumed.
--   Mutex: kernel/src/proc/mutex.c, as steps of processes in any order between their accesses to the
--     spinlock, the flag and the queue.
--   Calendar: libc/src/time/mktime.c.
-- Everything else is not modelled: the switch of contexts and the creation of processes
-- (kernel/src/proc), which move stacks and registers, the file systems below the mount points, the drivers and
-- the user programs.
pub mod Prelude
pub mod Circular
pub mod Ring
pub mod Pmm
pub mod DynList
pub mod Files
pub mod Heap
pub mod Ctype
pub mod Termios
pub mod Shm
pub mod Tree
pub mod Socket
pub mod Vfs
pub mod Tty
pub mod Mem
pub mod Mutex
pub mod Paths
pub mod Mmap
pub mod Paging
pub mod Pipe
pub mod Calendar
pub mod Proc
