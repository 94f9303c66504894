-- ===== src/Lib.antt =====
-- LiteBSD, a 32-bit kernel for one processor without paging between tasks, written in C.
--
-- Parts and files:
-- * The heap (src/heap.c) is a first-fit allocator with a list of free blocks ordered by address and
--   a bump pointer. Heap.antt has the blocks and `kmalloc` and `kfree`; the free list and the blocks
--   handed out are two lists, and the magic word of a header is the list its block is in; what payload
--   bytes read as where `kfree` looks for a header is an argument of it. Heap/Inv has the invariant,
--   Heap/Take what `kmalloc` does, Heap/Release and Heap/Kfree what `kfree` does.
-- * Path resolution (`vfs_resolve_path` and `path_parent_dir` of src/vfs.c) is Path.antt, over lists
--   of bytes without their NUL. `temp`, which the code fills from the left, is kept reversed while
--   the names are read. Path/Spec has stacks of names, their texts and what `.` and `..` mean there.
-- * The files (src/vfs.c): Vfs/Node has one node with its buffer, `vfs_read`, `vfs_write`,
--   `vfs_truncate` and the copy on write; Vfs/Lookup the search by path, the symlinks and the names
--   of the generated trees; Vfs/Ops the calls that change the tree; Vfs/Content, Vfs/Growth,
--   Vfs/ReadWrite and Vfs/Truncate are about one file; Vfs/Nodes, Vfs/Tree and Vfs/Links are about
--   the tree as a map from paths, Vfs/Follow about the symlinks; Vfs/Stat has the status and
--   the time stamps, and Vfs/Times is about them. The calls resolve their argument with Path.antt
--   against the working directory of the current task, which stands in the record `Env` with the timer.
-- * The scheduler (src/sched.c): Sched.antt has the circular list of tasks, `schedule`, `wait4` and
--   `task_exit`; Sched/File the open files, the pipes' ends and `release_fd`, whose calls of the file
--   tree and the sockets are recorded. Sched/Ring is about the list, Sched/Turn, Sched/Robin,
--   Sched/Wait, Sched/Exit and Sched/Slots about the calls.
-- * The console (src/tty.c): Console.antt has `print_char` and its escape sequences, Console/Inside
--   the invariant, Console/Escape the sequences and Console/Tab the tab.
-- * The system calls (src/syscall.c): Sys/Pipe has the transfer through a pipe in `sys_write` and
--   `sys_read`, Sys/Descriptor `sys_pipe`, `sys_dup`, `sys_dup2`, `sys_close`, `sys_lseek` and the copy
--   of the descriptors in `fork_task`. They work on the slots of the current task and on the store of
--   Sched/File. A wait for an interrupt ends the step of a pipe, which goes on once another task has
--   changed the pipe. Sys/Fifo and Sys/Transfer are about pipes, Sys/Count, Sys/Refs, Sys/Make, Sys/Leak,
--   Sys/Quiet and Sys/Calls about the references to files. `sys_lseek` takes the open nodes as a function,
--   of the tree or generated, for `vfs_fstat`.
-- * The network stack (src/netstack.c, src/drivers/netdev.c): Net/Bytes has the byte orders, with memory
--   behind a pointer as a function, Net/State the tables, Net/Checksum `net_checksum`, Net/Send
--   `arp_resolve`, `ethernet_send` and `ipv4_send`, Net/Receive `ethernet_rx` and what it calls, and
--   Net/Devices the table of devices. A driver is two functions of a `Device`, `send` and `poll`; `poll`
--   may hand in any frames. Net/Arp and Net/Carry are about addresses and packets.
-- * The sockets (src/socket.c): Net/Tcp has segments and `socket_tcp_input`, Net/Datagram the inputs of
--   datagrams, Net/Socket the calls on a socket, Net/Transfer `sock_sendto` and `sock_recvfrom`. A
--   socket is its place in the table. Net/Stream is about the receive buffer, Net/Receiver,
--   Net/Moves and Net/States about the states of a connection, Net/Through, Net/Sound, Net/Kept, Net/Frames, Net/Steps,
--   Net/Traffic and Net/Events about the invariant of the tables.
-- * The keyboard (src/drivers/keyboard.c): Keyboard.antt has the scan codes, the keys that are held and
--   the queue of characters; Keyboard/Queue and Keyboard/Keys are about the queue.
-- * Circle.antt is about the circular buffers that pipes, sockets and the keyboard keep.
--
-- Numbers are natural numbers with the wrap-around of `unsigned int` written out where the code can
-- reach it (Prelude/Words). Bounds and fuel: `walk` has the length of the path as fuel, since every
-- round takes a byte; the loop that doubles a capacity has 33 rounds, after which it has reached what
-- is required or stays at 0; symlinks are followed eight times, as in the code; a tab has eight
-- rounds, since its stop is at most eight columns away; the carries of a 32-bit sum are folded in
-- three rounds; the chunks of a stream have its bytes as fuel, since every round sends one; the loops
-- that wait for the network have the rounds that the code counts down.
--
-- Not modelled: the other system calls and the loading of programs (src/syscall.c), the initial archive
-- (src/initrd.c), the texts of the generated files (src/sysinfo.c; a field of `Env`), descriptor tables,
-- interrupts, paging, the drivers of the devices and user programs; stacks and memory images of tasks;
-- the creation of tasks; the messages that the calls print beside their work; the listing of directories
-- (`vfs_getdents`), `vfs_getcwd` and `vfs_truncate_path`; the counters of packets, the loopback
-- device and the search for a device by its name. The heap halts the machine when nothing is left, so
-- that the other parts take no NULL from it. `vfs_write` and `vfs_truncate` have `kmalloc` as an argument
-- and its halt as an outcome; what the others state is about the runs in which memory lasts.
-- A pointer to a node is the path of the node.
pub mod Prelude
pub mod Circle
pub mod Heap
pub mod Path
pub mod Vfs
pub mod Sched
pub mod Console
pub mod Sys
pub mod Net
pub mod Keyboard
