-- ===== src/Sys.antt =====
-- The system calls of src/syscall.c. `Pipe` has the transfer of bytes through a pipe, `Descriptor` the
-- calls on the descriptors of a task and `Calls` sequences of them.
pub mod Pipe
pub mod Fifo
pub mod Transfer
pub mod Descriptor
pub mod Count
pub mod Refs
pub mod Make
pub mod Leak
pub mod Quiet
pub mod Calls
mod Tests
