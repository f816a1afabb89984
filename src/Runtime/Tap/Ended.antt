-- ===== src/Runtime/Tap/Ended.antt =====
-- A tap of protofish4/src/sender.rs whose transfer has ended, well or not.
use protofish4_rs.Sender as Xfer
use protofish4_rs.Runtime.Tap.{Sender}
