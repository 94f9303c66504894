-- ===== src/Vfs.antt =====
-- The file system of src/vfs.c. `Node` has the nodes and what reads and writes one of them, `Lookup`
-- the search by path with the symlinks and the generated trees, `Ops` the calls that change the tree.
pub mod Node
pub mod Content
pub mod Growth
pub mod ReadWrite
pub mod Truncate
pub mod Lookup
pub mod Ops
pub mod Nodes
pub mod Tree
pub mod Links
pub mod Follow
pub mod Stat
pub mod Times
mod Tests
