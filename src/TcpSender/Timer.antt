-- ===== src/TcpSender/Timer.antt =====
-- `TCPSender::tick` of src/tcp_sender.cc: the retransmission timer.
use tiny_tcp_over_tun.Common.{
  ℕ, ◌*◌, ◌/◌, max, List, [], ◌∷◌, Option, none, some, ltb, leb, if◌then◌else◌, add64, u64, ◌%◌,
}
use tiny_tcp_over_tun.ByteStream
use tiny_tcp_over_tun.Messages.{TcpSenderMessage, max_payload_size, max_retx_attempts}
use tiny_tcp_over_tun.TcpSender.{TcpSender, Sent}

-- The state after a timeout: an open window means that the network is to blame.
unfoldable pub back_off : TcpSender → TcpSender
back_off s =
    let doubled : TcpSender = record s {
      current_rto_ms = (s.current_rto_ms * 2) % u64;
      consecutive_retransmissions = add64 s.consecutive_retransmissions 1;
    } in
    if ltb 0 s.window_size
    then if ltb max_retx_attempts doubled.consecutive_retransmissions
      then record doubled { input = ByteStream.set_error s.input }
      else record doubled {
        ssthresh = max (s.cwnd / 2) max_payload_size;
        cwnd = max_payload_size;
        consecutive_duplicate_acks = 0;
      }
    else s

-- The oldest segment goes out again. `none` is `front()` of an empty queue, which is undefined.
unfoldable pub time_out : List TcpSenderMessage → TcpSender → Option Sent
unfolding back_off
time_out [] s = none
time_out (m ∷ msgs) s = some (m ∷ [], back_off (record s { time_elapsed = 0 }))

unfoldable pub tick : ℕ → TcpSender → Option Sent
unfolding time_out
tick ms_since_last_tick s =
    let elapsed =
      if s.is_timer_runnning then add64 s.time_elapsed ms_since_last_tick else s.time_elapsed in
    let s' : TcpSender = record s { time_elapsed = elapsed } in
    if leb s'.current_rto_ms elapsed then time_out s'.outstanding_seqno s' else some ([], s')
