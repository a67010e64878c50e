-- ===== src/TcpSender/Acks.antt =====
-- `TCPSender::receive` of src/tcp_sender.cc: acknowledgments, duplicate ones, and the congestion
-- window of slow start, congestion avoidance and fast recovery.
pub mod Congestion
use tiny_tcp_over_tun.Common.{
  ℕ, zero, suc, ◌+◌, ◌*◌, ◌/◌, max, List, [], ◌∷◌, Bool, true, false, not, ◌&&◌, none, some, ltb,
  leb, ◌==◌, if◌then◌else◌, add64, sub64, length,
}
use tiny_tcp_over_tun.Wrap32.{unwrap}
use tiny_tcp_over_tun.ByteStream
use tiny_tcp_over_tun.Messages.{
  TcpSenderMessage, TcpReceiverMessage, sequence_length, max_payload_size,
}
use tiny_tcp_over_tun.TcpSender.{TcpSender}

-- Congestion avoidance: a full segment at a time, and then what is left. The division by `cwnd` is
-- undefined in the source when it is 0; `cwnd` starts at 64000, and is
-- only set to 1000 and more or added to.
unfoldable pub avoid_loop : ℕ → ℕ → ℕ → ℕ
avoid_loop zero remaining cwnd = cwnd
avoid_loop (suc fuel) remaining cwnd =
    let rest =
      avoid_loop fuel (sub64 remaining max_payload_size)
        (add64 cwnd (max_payload_size * max_payload_size / cwnd)) in
    if leb max_payload_size remaining
    then rest
    else if ltb 0 remaining
    then add64 cwnd (remaining * max_payload_size / cwnd)
    else cwnd

-- The congestion window after `bytes_acked` new bytes. A round takes 1000 bytes, so the fuel, one
-- more than the bytes, is enough.
unfoldable pub grow : ℕ → TcpSender → ℕ
unfolding avoid_loop
grow bytes_acked s =
    if ltb s.cwnd s.ssthresh
    then add64 s.cwnd bytes_acked
    else avoid_loop (suc bytes_acked) bytes_acked s.cwnd

-- An acknowledgment of something new.
unfoldable pub new_ack : ℕ → TcpSender → TcpSender
unfolding grow
new_ack new_ackno s =
    let syn_only = s.ackno == 0 && (new_ackno == 1) in
    record s {
      current_rto_ms = s.initial_rto_ms;
      consecutive_retransmissions = 0;
      time_elapsed = 0;
      is_timer_runnning = true;
      ackno = new_ackno;
      consecutive_duplicate_acks = 0;
      cwnd = if syn_only then s.cwnd else grow (sub64 new_ackno s.ackno) s;
    }

-- The same acknowledgment again, while something is outstanding.
unfoldable pub duplicate_ack : TcpSender → TcpSender
duplicate_ack s =
    let n = add64 s.consecutive_duplicate_acks 1 in
    let half = max (s.cwnd / 2) max_payload_size in
    if length s.outstanding_seqno == 0
    then s
    else if n == 3
    then record s {
      consecutive_duplicate_acks = n;
      fast_retransmit_pending = true;
      ssthresh = half;
      cwnd = add64 half (3 * max_payload_size);
    }
    else if ltb 3 n
    then record s { consecutive_duplicate_acks = n; cwnd = add64 s.cwnd max_payload_size }
    else record s { consecutive_duplicate_acks = n }

-- The loop that removes acknowledged segments from the front: `msgs` is the queue.
unfoldable pub pop_acked : ℕ → List TcpSenderMessage → TcpSender → TcpSender
pop_acked new_ackno [] s = record s { outstanding_seqno = [] }
pop_acked new_ackno (m ∷ msgs) s =
    let rest =
      pop_acked new_ackno msgs
        (record s { flight_numbers_length = sub64 s.flight_numbers_length (sequence_length m) }) in
    if leb (add64 (unwrap m.seqno s.isn s.next_seqno) (sequence_length m)) new_ackno
    then rest
    else record s { outstanding_seqno = m ∷ msgs }

-- The timer at the end of `receive`.
unfoldable pub settle_timer : ℕ → TcpSender → TcpSender
settle_timer new_ackno s =
    if length s.outstanding_seqno == 0
    then record s { is_timer_runnning = false; time_elapsed = 0 }
    else if ltb s.ackno new_ackno
    then record s { is_timer_runnning = true }
    else s

unfoldable pub receive_ackno : ℕ → TcpSender → TcpSender
unfolding new_ack duplicate_ack pop_acked settle_timer
receive_ackno new_ackno s =
    let counted =
      if ltb s.ackno new_ackno
      then new_ack new_ackno s
      else if new_ackno == s.ackno
      then duplicate_ack s
      else s in
    if ltb s.next_seqno new_ackno
    then s
    else settle_timer new_ackno (pop_acked new_ackno counted.outstanding_seqno counted)

unfoldable pub receive : TcpReceiverMessage → TcpSender → TcpSender
unfolding receive_ackno
receive msg s =
    let reset = if msg.rst then record s { input = ByteStream.set_error s.input } else s in
    let windowed : TcpSender = record reset { window_size = msg.window_size } in
    elim msg.ackno [
      | none ↦ windowed
      | some ackno ↦ receive_ackno (unwrap ackno windowed.isn windowed.next_seqno) windowed
    ]
