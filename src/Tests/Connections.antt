-- ===== src/Tests/Connections.antt =====
-- The theorem on a whole connection (util/tcp_peer.hh) at a concrete input.
use tiny_tcp_over_tun.Common.{◌≡◌, [], ◌∷◌, true, false, some, arith, refl}
use tiny_tcp_over_tun.ByteStream
use tiny_tcp_over_tun.Reassembler
use tiny_tcp_over_tun.Messages.{default_config}
use tiny_tcp_over_tun.TcpReceiver
use tiny_tcp_over_tun.TcpSender
use tiny_tcp_over_tun.TcpPeer.{TcpMessage, TcpPeer, active, lingering, receive}
use tiny_tcp_over_tun.TcpPeer.Replies.{Replied, receive-Replied}
use tiny_tcp_over_tun.Tests.Sending.{sender, sender-Sound}

-- The sender has five bytes in flight; the receiver still waits for a SYN.
abbrev peer : TcpPeer
peer = record {
  cfg = default_config;
  sender = sender;
  receiver = TcpReceiver.init (Reassembler.init (ByteStream.init 8));
  need_send = false;
  linger_after_streams_finish = true;
  cumulative_time = 50;
  time_of_last_receipt = 20;
}

-- A SYN that acknowledges the first segment.
abbrev arriving : TcpMessage
arriving = record {
  sender = record {
    seqno = record { raw_value = 7 };
    syn = true;
    payload = 1 ∷ [];
    fin = false;
    rst = false;
  };
  receiver = record { ackno = some (record { raw_value = 2 }); window_size = 100; rst = false };
}

peer-active : active peer ≡ true
unfolding active lingering TcpReceiver.init Reassembler.init ByteStream.init ByteStream.has_error
    ByteStream.is_finished ByteStream.is_closed TcpSender.sequence_numbers_in_flight
peer-active = refl

receive-Replied_example : Replied arriving peer (receive arriving peer)
receive-Replied_example =
    receive-Replied arriving peer peer-active sender-Sound (omega arith) (omega arith)
