-- ===== src/Config.antt =====
-- protofish4-proto/src/config.rs.
use protofish4_rs.Base.{ℕ, zero, suc, ◌-◌, ◌*◌, List, [], ◌∷◌, Bool, true, false, length, min}
use protofish4_rs.Types.{Duration, from_millis, from_secs}

pub data RecvMode : Type 0 where
  dual rel_only : RecvMode

abbrev pub wants_unrel : RecvMode → Bool
wants_unrel dual = true
wants_unrel rel_only = false

pub record ReceiverConfig : Type 0 where
  pub mode : RecvMode
  pub reorder_window : ℕ
  pub max_reorder_bytes : ℕ
  pub max_nack_attempts : ℕ
  pub nack_backoff : List Duration
  pub rel_stall_timeout : Duration
  pub idle_timeout : Duration
  pub ack_interval : Duration

abbrev pub audio_engine : ReceiverConfig
audio_engine = record {
  mode = dual;
  reorder_window = 1024;
  max_reorder_bytes = 1024 * 1024;
  max_nack_attempts = 3;
  nack_backoff = from_millis 30 ∷ from_millis 100 ∷ from_millis 300 ∷ [];
  rel_stall_timeout = from_secs 5;
  idle_timeout = from_secs 15;
  ack_interval = from_millis 200;
}

abbrev pub cache_worker : ReceiverConfig
cache_worker = record {
  mode = rel_only;
  reorder_window = 65_536;
  max_reorder_bytes = 32 * 1024 * 1024;
  max_nack_attempts = 12;
  nack_backoff =
      from_millis 50 ∷ from_millis 200 ∷ from_millis 500 ∷ from_secs 1 ∷ from_secs 2 ∷ [];
  rel_stall_timeout = from_secs 60;
  idle_timeout = from_secs 30;
  ack_interval = from_millis 500;
}

-- `nack_backoff.get(i).copied().unwrap_or(100 ms)`.
abbrev pub delay_at : List Duration → ℕ → Duration
delay_at [] i = from_millis 100
delay_at (d ∷ ds) zero = d
delay_at (d ∷ ds) (suc i) = delay_at ds i

abbrev pub nack_delay : ReceiverConfig → ℕ → Duration
nack_delay cfg attempt = delay_at cfg.nack_backoff (min attempt (length cfg.nack_backoff - 1))

pub record SenderConfig : Type 0 where
  pub retrans_ring_frames : ℕ
  pub retrans_ring_bytes : ℕ
  pub max_outstanding : ℕ
  pub buffer_high_water_ms : ℕ
  pub buffer_low_water_ms : ℕ
  pub first_ack_timeout : Duration
  pub tail_keepalive_interval : Duration
  pub finalize_timeout : Duration

-- `SenderConfig::default()`.
abbrev pub default_sender : SenderConfig
default_sender = record {
  retrans_ring_frames = 1024;
  retrans_ring_bytes = 1024 * 1024;
  max_outstanding = 512;
  buffer_high_water_ms = 10_000;
  buffer_low_water_ms = 5_000;
  first_ack_timeout = from_secs 2;
  tail_keepalive_interval = from_secs 5;
  finalize_timeout = from_secs 30;
}
