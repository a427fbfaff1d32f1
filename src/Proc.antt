-- ===== src/Proc.antt =====
-- kernel/src/proc/process.c: the processes of the kernel, in parts that keep their state apart.
pub mod Fds
pub mod Sleep
pub mod Queues
pub mod Signals
pub mod Waitpid
