-- ===== src/Failure.antt =====
-- protofish4-proto/src/error.rs. The messages that `thiserror` formats are left out.
use Prim.Native.String.{String}
use protofish4_rs.Base.{ℕ, Result}
use protofish4_rs.Types.{XferSeq}

pub data Error (Uuid : Type 0) : Type 0 where
  -- `need`, `got`.
  truncated : ℕ → ℕ → Error Uuid
  unsupported_version : ℕ → Error Uuid
  unknown_kind : ℕ → Error Uuid
  -- `kind`, `reason`.
  malformed_body : String → String → Error Uuid
  trailing_bytes : String → Error Uuid
  decrypt_failed : Uuid → Error Uuid
  replay : ℕ → Error Uuid
  bad_key_length : ℕ → Error Uuid
  -- `got`, `max`.
  payload_too_large : ℕ → ℕ → Error Uuid
  retrans_buffer_full : ℕ → Error Uuid
  -- `bytes`, `frames`.
  reorder_budget_exhausted : ℕ → ℕ → Error Uuid
  no_credit : Error Uuid
  unexpected_frame : String → Error Uuid
  wrong_direction : String → Error Uuid
  -- `declared`, `sent`.
  bad_final_seq : XferSeq → XferSeq → Error Uuid

-- The crate's `Result`.
abbrev pub Fallible : Type 0 → Type 0 → Type 0
Fallible Uuid A = Result (Error Uuid) A
