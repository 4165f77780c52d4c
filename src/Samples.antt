-- ===== src/Samples.antt =====
-- Small instances of the interfaces, and the theorems applied at concrete inputs.
pub mod Servers
pub mod Stores
pub mod Tables
pub mod World
pub mod Models
pub mod Halls
mod Talks
mod Links
mod People
mod Starts
mod Runs
mod Accounts
mod Keys
mod Registers
mod Sockets
mod Handshakes
mod Answers
mod Grants
