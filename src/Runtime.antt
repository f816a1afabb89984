-- ===== src/Runtime.antt =====
-- The crate protofish4, which binds the protocol to sockets and channels.
pub mod Feedback
pub mod Failure
pub mod Entry
pub mod Endpoint
pub mod Tap
pub mod Transfer
