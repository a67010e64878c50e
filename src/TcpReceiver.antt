-- ===== src/TcpReceiver.antt =====
-- src/tcp_receiver.hh and src/tcp_receiver.cc: segments of the peer's sender go into a
-- `Reassembler`, and an acknowledgment number and a window come out.
pub mod Receive
pub mod Resets
pub mod Send
use tiny_tcp_over_tun.Common.{
  ℕ, Bool, true, false, not, ◌&&◌, Option, none, some, ltb, if◌then◌else◌, add64, sub64,
}
use tiny_tcp_over_tun.Wrap32.{Wrap32, wrap, unwrap}
use tiny_tcp_over_tun.ByteStream
use tiny_tcp_over_tun.Reassembler
use tiny_tcp_over_tun.Reassembler.{Reassembler}
use tiny_tcp_over_tun.Messages.{TcpSenderMessage, TcpReceiverMessage}

pub record TcpReceiver : Type 0 where
  pub reassembler : Reassembler
  pub syn : Bool
  pub fin : Bool
  pub rst : Bool
  pub isn : Wrap32

unfoldable pub init : Reassembler → TcpReceiver
init reassembler = record {
  reassembler = reassembler;
  syn = false;
  fin = false;
  rst = false;
  isn = record { raw_value = 0 };
}

-- The first SYN fixes the initial sequence number.
unfoldable pub see_syn : TcpSenderMessage → TcpReceiver → TcpReceiver
see_syn message r =
    if message.syn && not r.syn then record r { syn = true; isn = message.seqno } else r

-- `reader().set_error()` on the output of the reassembler.
unfoldable pub reset : TcpReceiver → TcpReceiver
reset r = record r {
  rst = true;
  reassembler = record r.reassembler { output = ByteStream.set_error r.reassembler.output };
}

-- The stream index of the first byte of a message.
unfoldable pub first_index : TcpSenderMessage → TcpReceiver → ℕ
first_index message r =
    let checkpoint = add64 (ByteStream.bytes_pushed r.reassembler.output) 1 in
    if message.syn then 0 else sub64 (unwrap message.seqno r.isn checkpoint) 1

-- The end of `receive`, once a SYN has been seen.
unfoldable pub take_payload : TcpSenderMessage → TcpReceiver → TcpReceiver
unfolding first_index
take_payload message r = record r {
  fin = if message.fin then true else r.fin;
  reassembler =
      Reassembler.insert (first_index message r) message.payload message.fin r.reassembler;
}

unfoldable pub receive : TcpSenderMessage → TcpReceiver → TcpReceiver
unfolding see_syn reset take_payload
receive message r =
    let seen = see_syn message r in
    if message.rst then reset seen else if not seen.syn then seen else take_payload message seen

unfoldable pub send : TcpReceiver → TcpReceiverMessage
send r =
    let output = r.reassembler.output in
    let available = ByteStream.available_capacity output in
    let ackno_abs = add64 (ByteStream.bytes_pushed output) 1 in
    record {
      ackno =
          if r.syn
          then some
              (wrap (if ByteStream.is_closed output then add64 ackno_abs 1 else ackno_abs) r.isn)
          else none;
      window_size = if ltb 65535 available then 65535 else available;
      rst = if ByteStream.has_error output then true else r.rst;
    }
