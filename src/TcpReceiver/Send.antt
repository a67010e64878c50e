-- ===== src/TcpReceiver/Send.antt =====
-- `TCPReceiver::send` of src/tcp_receiver.cc: the acknowledgment and the window.
use tiny_tcp_over_tun.Common.{
  ℕ, ◌+◌, ◌-◌, ◌^◌, min, ◌<◌, ◌≡◌, length, none, some, arith, ap, u64, add64, if◌then◌else◌,
}
use mathlib.Core.Option
use tiny_tcp_over_tun.Wrap32.{wrap, unwrap}
use tiny_tcp_over_tun.Wrap32.Unwrap.{IsWord, dist, unwrap-wrap}
use tiny_tcp_over_tun.ByteStream
use tiny_tcp_over_tun.ByteStream.Invariant.{IsValid, available_capacity-eq}
use tiny_tcp_over_tun.Messages.{flag}
use tiny_tcp_over_tun.TcpReceiver.{TcpReceiver, send}

-- The window on offer is the free room of the output stream, if that is valid, and at most 65535.
pub send_window :
    (r : TcpReceiver)
    → IsValid r.reassembler.output
    → let output = r.reassembler.output in
      (send r).window_size ≡ min 65535 (output.capacity - length output.buffer)
unfolding send
send_window r v = ground (arith, available_capacity-eq r.reassembler.output v)

-- The next sequence number needed: one for the SYN, one for each byte written to the stream, and
-- one for the FIN if the stream is closed.
abbrev pub needed : TcpReceiver → ℕ
needed r = r.reassembler.output.total_pushed + 1 + flag r.reassembler.output.closed

-- The message carries an acknowledgment number exactly when a SYN has been seen. A checkpoint
-- below 2^64 and less than 2^31 away recovers from it the next sequence number needed: one for the
-- SYN, one for each byte written to the stream, fewer than 2^64 - 2, and one for the FIN if the
-- stream is closed.
pub send_ackno :
    (r : TcpReceiver) (checkpoint : ℕ)
    → IsWord r.isn
    → r.reassembler.output.total_pushed + 2 < u64
    → checkpoint < u64
    → dist (needed r) checkpoint < 2 ^ 31
    → Option.map (λ ackno. unwrap ackno r.isn checkpoint) (send r).ackno
      ≡ (if r.syn then some (needed r) else none)
unfolding send ByteStream.is_closed ByteStream.bytes_pushed
send_ackno r checkpoint word small hc near = ground (
  arith,
  unwrap-wrap (r.reassembler.output.total_pushed + 1) r.isn checkpoint word,
  unwrap-wrap (r.reassembler.output.total_pushed + 2) r.isn checkpoint word,
  at (r.reassembler.output.total_pushed + 1) (add64 r.reassembler.output.total_pushed 1),
  at (r.reassembler.output.total_pushed + 2) (add64 (add64 r.reassembler.output.total_pushed 1) 1),
)
  where
    at : (n m : ℕ) → m ≡ n → wrap m r.isn ≡ wrap n r.isn
    at n m e = ap (λ k. wrap k r.isn) e
