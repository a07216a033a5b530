-- ===== src/Server.antt =====
-- src/server.rs, operation by operation: the queries on memberships, delivery, the commands of a
-- registered session, registration, and one connection's loop.
pub mod Members
pub mod Delivery
pub mod Chat
pub mod TaskCommands
pub mod Registration
pub mod Connection
pub mod Invariants
pub mod Replies
pub mod Takeover
pub mod Departure
pub mod Fanout
pub mod Posting
pub mod Joining
pub mod Membership
pub mod Guards
pub mod Positions
pub mod Replay
pub mod Handover
pub mod Endings
pub mod System
pub mod Guarantees
pub mod Racing
pub mod Agreement
pub mod Returning
pub mod Greeting
pub mod Arrival
