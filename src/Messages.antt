-- ===== src/Messages.antt =====
-- The messages between a TCP sender and a TCP receiver (util/tcp_sender_message.hh and
-- util/tcp_receiver_message.hh), and the constants of `TCPConfig` (util/tcp_config.hh).
use tiny_tcp_over_tun.Common.{ℕ, ◌+◌, List, length, Bool, Option, if◌then◌else◌}
use tiny_tcp_over_tun.Wrap32.{Wrap32}

-- `TCPSenderMessage`
pub record TcpSenderMessage : Type 0 where
  pub seqno : Wrap32
  pub syn : Bool
  pub payload : List ℕ
  pub fin : Bool
  pub rst : Bool

-- A flag counts as one sequence number.
abbrev pub flag : Bool → ℕ
flag b = if b then 1 else 0

unfoldable pub sequence_length : TcpSenderMessage → ℕ
sequence_length m = flag m.syn + length m.payload + flag m.fin

-- `TCPReceiverMessage`
pub record TcpReceiverMessage : Type 0 where
  pub ackno : Option Wrap32
  pub window_size : ℕ
  pub rst : Bool

abbrev pub default_capacity : ℕ
default_capacity = 64000

abbrev pub max_payload_size : ℕ
max_payload_size = 1000

abbrev pub timeout_dflt : ℕ
timeout_dflt = 1000

abbrev pub max_retx_attempts : ℕ
max_retx_attempts = 8

-- `TCPConfig`
pub record TcpConfig : Type 0 where
  pub rt_timeout : ℕ
  pub recv_capacity : ℕ
  pub send_capacity : ℕ
  pub isn : Wrap32

abbrev pub default_config : TcpConfig
default_config = record {
  rt_timeout = timeout_dflt;
  recv_capacity = default_capacity;
  send_capacity = default_capacity;
  isn = record { raw_value = 137 };
}
