-- ===== src/Net.antt =====
-- The network: src/netstack.c and src/socket.c. `Bytes` has the byte orders, `State` the tables of the
-- two files and the devices.
pub mod Bytes
pub mod Checksum
pub mod State
pub mod Send
pub mod Arp
pub mod Devices
pub mod Tcp
pub mod Datagram
pub mod Receive
pub mod Socket
pub mod Transfer
pub mod Carry
pub mod Stream
pub mod Through
pub mod Sound
pub mod Kept
pub mod Frames
pub mod Steps
pub mod Traffic
pub mod Events
pub mod Receiver
pub mod Moves
pub mod States
mod Tests
