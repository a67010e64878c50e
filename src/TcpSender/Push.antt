-- ===== src/TcpSender/Push.antt =====
-- One round of the loop in `TCPSender::push` (src/tcp_sender.cc): what it may do to the sender.
pub mod Again
pub mod Marks
pub mod Fill
pub mod OneRound
pub mod Ran
pub mod Loop
use tiny_tcp_over_tun.Common.{
  ◌≢◌, ℕ, zero, suc, ◌+◌, ◌-◌, min, ◌≤◌, ◌<◌, ◌≡◌, ◌⊎◌, List, [], ◌∷◌, ◌++◌, length, take, drop,
  Bool, true, false, not, ◌&&◌, ◌||◌, ltb, leb, ◌==◌, if◌then◌else◌, add64, sub64, u64, arith, refl,
  ap, sym, ◌∙◌, take-append-drop, length-take, length-drop, take-append-drop-length, drop-eq-nil,
  eq_cases, ne→==_false, Bool-cases, inl, inr,
}
use tiny_tcp_over_tun.Wrap32.{wrap}
use tiny_tcp_over_tun.ByteStream
use tiny_tcp_over_tun.Messages.{TcpSenderMessage, sequence_length, flag, max_payload_size}
use tiny_tcp_over_tun.TcpSender.{
  TcpSender, Round, stop, sent, last, record_sent, emit, fill, round, make_empty_message,
}

-- The parts of a sender that sending never changes.
pub record Same (s s' : TcpSender) : Type 0 where
  pub isn : s'.isn ≡ s.isn
  pub window_size : s'.window_size ≡ s.window_size
  pub cwnd : s'.cwnd ≡ s.cwnd
  pub ackno : s'.ackno ≡ s.ackno
  pub closed : s'.input.closed ≡ s.input.closed
  pub elapsed : s'.time_elapsed ≡ s.time_elapsed
  pub rto : s'.current_rto_ms ≡ s.current_rto_ms
  pub initial_rto : s'.initial_rto_ms ≡ s.initial_rto_ms
  pub ssthresh : s'.ssthresh ≡ s.ssthresh
  pub retransmissions : s'.consecutive_retransmissions ≡ s.consecutive_retransmissions
  pub duplicates : s'.consecutive_duplicate_acks ≡ s.consecutive_duplicate_acks

-- Nothing has been sent: the stream, the books and the timer are as before.
pub record Idle (s s' : TcpSender) : Type 0 where
  pub same : Same s s'
  pub input : s'.input ≡ s.input
  pub outstanding : s'.outstanding_seqno ≡ s.outstanding_seqno
  pub next : s'.next_seqno ≡ s.next_seqno
  pub flight : s'.flight_numbers_length ≡ s.flight_numbers_length
  pub timer : s'.is_timer_runnning ≡ s.is_timer_runnning

-- A round that sends `m` into a window of `available` sequence numbers.
pub record Emits (available : ℕ) (m : TcpSenderMessage) (s s' : TcpSender) : Type 0 where
  pub same : Same s s'
  pub not_empty : 0 < sequence_length m
  pub fits : sequence_length m ≤ available
  pub small : length m.payload ≤ max_payload_size
  pub seqno : m.seqno ≡ wrap s.next_seqno s.isn
  pub in_order : m.payload ++ s'.input.buffer ≡ s.input.buffer
  pub outstanding : s'.outstanding_seqno ≡ s.outstanding_seqno ++ m ∷ []
  pub next : s'.next_seqno ≡ add64 s.next_seqno (sequence_length m)
  pub flight : s'.flight_numbers_length ≡ add64 s.flight_numbers_length (sequence_length m)
  pub syn : m.syn ≡ not s.syn_sent
  pub fin : m.fin ≡ true → (s.input.closed ≡ true) × (s'.input.buffer ≡ [])
  pub timer : s'.is_timer_runnning ≡ true
  pub syn_sent : s'.syn_sent ≡ true
  pub fin_sent : s'.fin_sent ≡ (s.fin_sent || m.fin)
  pub pending : s'.fast_retransmit_pending ≡ s.fast_retransmit_pending

-- Everything has been sent: all bytes of the stream, and the FIN if it is closed.
pub record Drained (s : TcpSender) : Type 0 where
  pub empty : s.input.buffer ≡ []
  pub fin : s.input.closed ≡ true → s.fin_sent ≡ true

-- Bytes wait, but the congestion window has no room for a whole segment.
pub record Held (available : ℕ) (s : TcpSender) : Type 0 where
  pub limited : s.cwnd < s.window_size
  pub bytes : 0 < length s.input.buffer
  pub room : available ≤ max_payload_size

abbrev pub Follows : ℕ → TcpSender → Round → Type 0
Follows available s (stop s') =
    (s' ≡ record s { syn_sent = true }) × (Held available s' ⊎ Drained s')
Follows available s (sent m s') = Emits available m s s'
Follows available s (last m s') = Emits available m s s' × (m.fin ≡ true)
