-- ===== src/TcpSender/Push/OneRound.antt =====
-- A round of `TCPSender::push` (src/tcp_sender.cc) as a whole.
use tiny_tcp_over_tun.Common.{
  ℕ, ◌+◌, min, ◌≤◌, ◌<◌, length, Bool, inl, false≢true, sym, ◌≡◌, true, false, not, ◌&&◌, ltb,
  if◌then◌else◌, sub64, u64, arith, refl,
}
use tiny_tcp_over_tun.ByteStream
use tiny_tcp_over_tun.Messages.{TcpSenderMessage, flag, max_payload_size}
use tiny_tcp_over_tun.TcpSender.{TcpSender, stop, fill, round, make_empty_message}
use tiny_tcp_over_tun.TcpSender.Push.{Follows}
use tiny_tcp_over_tun.TcpSender.Push.Fill.{fill-Follows}

-- What the test for a partial segment says.
held_facts :
    (syn : Bool) (cwnd window available size : ℕ)
    → available < u64
    → (let payload_len =
          min (min max_payload_size (if syn then available else sub64 available 1)) size in
        (ltb payload_len max_payload_size
          && ltb payload_len size
          && (ltb 0 window && ltb cwnd window)))
      ≡ true
    → (cwnd < window) × (0 < size) × (available ≤ max_payload_size)
held_facts syn cwnd window available size hu e = ground arith

-- With room in the window, below 2^64, a round that sends a segment sends one that fits into the
-- room, occupies a sequence number, carries at most 1000 bytes taken from the front of the stream,
-- and has FIN only on the last bytes of a closed stream. A round that sends nothing sets the mark
-- that the SYN has been sent and changes nothing else; and either all bytes have been sent, and the
-- FIN if the stream is closed, or bytes wait, the congestion window is smaller than the receiver's,
-- and the room is for 1000 sequence numbers at most.
pub round-Follows :
    (available : ℕ) (s : TcpSender)
    → 0 < available
    → available < u64
    → Follows available s (round available s)
unfolding round make_empty_message ByteStream.peek
round-Follows available s h0 hu =
    either
      (ltb payload_len max_payload_size
        && ltb payload_len (length s.input.buffer)
        && (ltb 0 s.window_size && ltb s.cwnd s.window_size))
      refl
  where
    after_syn : ℕ
    after_syn = if s.syn_sent then available else sub64 available 1

    payload_len : ℕ
    payload_len = min (min max_payload_size after_syn) (length s.input.buffer)

    msg : TcpSenderMessage
    msg = record (make_empty_message s) {
      syn = not s.syn_sent;
      rst = if ByteStream.has_error s.input then true else (make_empty_message s).rst;
    }

    room :
        (syn : Bool) → flag (not syn) + (if syn then available else sub64 available 1) ≤ available
    room syn = ground arith

    -- Nothing fits only when nothing is left.
    empty :
        (syn : Bool)
        → not syn ≡ false
        → min
            (min max_payload_size (if syn then available else sub64 available 1))
            (length s.input.buffer)
          ≡ 0
        → (length s.input.buffer ≡ 0) × (0 < (if syn then available else sub64 available 1))
    empty true e z = (omega arith, h0)
    empty false e z = absurd (false≢true (sym e))

    either :
        (b : Bool)
        → (ltb payload_len max_payload_size
            && ltb payload_len (length s.input.buffer)
            && (ltb 0 s.window_size && ltb s.cwnd s.window_size))
          ≡ b
        → Follows available s (
            if b
            then stop (record s { syn_sent = true })
            else fill payload_len after_syn msg (record s { syn_sent = true }))
    either true e =
        let (limited, bytes, small) =
          held_facts s.syn_sent s.cwnd s.window_size available (length s.input.buffer) hu e in
        (refl, inl (record { limited = limited; bytes = bytes; room = small }))
    either false e =
        fill-Follows available after_syn payload_len msg s refl refl (room s.syn_sent) (omega arith)
          hu (omega arith) (omega arith) (empty s.syn_sent)
