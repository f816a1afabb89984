-- ===== src/Runtime/Failure.antt =====
-- protofish4/src/error.rs. The messages are left out. An I/O error, a request id and the address of a
-- peer are types of other crates.
use Prim.Native.String.{String}
use protofish4_rs.Base.{List, Result}
use protofish4_rs.Failure

pub data Error (Uuid Addr Io : Type 0) : Type 0 where
  io : Io → Error Uuid Addr Io
  proto : Failure.Error Uuid → Error Uuid Addr Io
  no_route_to_sink : List String → Error Uuid Addr Io
  duplicate_request : Uuid → Error Uuid Addr Io
  endpoint_closed : Error Uuid Addr Io
  no_ack : Addr → Error Uuid Addr Io
  finalize_timeout : Error Uuid Addr Io
  peer_gone : Error Uuid Addr Io

-- The crate's `Result`.
abbrev pub Fallible : Type 0 → Type 0 → Type 0 → Type 0 → Type 0
Fallible Uuid Addr Io A = Result (Error Uuid Addr Io) A
