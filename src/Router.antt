-- ===== src/Router.antt =====
-- src/adapt_ipc.c: the endpoint that puts the parts together. Calls of the parts are calls of their
-- models; what the system and the peer answer comes from a `World`.
pub mod Types
pub mod Negotiate
pub mod Classify
pub mod Send
pub mod Recv
pub mod Init
pub mod Queries
pub mod Laws
pub mod Handshake
pub mod Delivery
pub mod Datagram
pub mod Settings
pub mod Ledger
pub mod Keeps
pub mod Retry
pub mod Rounds
pub mod Socket
pub mod Waiting
pub mod Once
pub mod Received
mod Tests
