-- ===== src/Tests.antt =====
-- Runs of the program's parts on small inputs, one for each result that has conditions.
pub mod Maps
pub mod Queues
pub mod Messages
pub mod Managers
pub mod Handlers
pub mod Connections
pub mod Loops
pub mod Clients
pub mod Pools
pub mod Servers
pub mod Screens
pub mod Accounts
pub mod Libraries
