-- ===== src/Tests.antt =====
-- Each theorem about the crates' code at a concrete input, and runs of the model.
pub mod Wire
pub mod Replaying
pub mod Tracking
pub mod Sending
pub mod Receiving
pub mod Tapping
pub mod Serving
pub mod Transferring
