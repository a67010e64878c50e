-- ===== src/TcpSender.antt =====
-- src/tcp_sender.hh and src/tcp_sender.cc: the sending half of a connection, with retransmission
-- and Reno congestion control. A call of `transmit` is an entry of the list of messages that an
-- operation returns beside the new state.
pub mod Acks
pub mod Books
pub mod Push
pub mod Steps
pub mod Timer
use tiny_tcp_over_tun.Common.{
  ℕ, zero, suc, ◌+◌, ◌-◌, ◌*◌, ◌/◌, ◌^◌, min, max, List, [], ◌∷◌, ◌++◌, length, take, Bool, true,
  false, not, ◌&&◌, Option, none, some, ltb, leb, ◌==◌, if◌then◌else◌, add64, sub64, u64,
}
use tiny_tcp_over_tun.Wrap32.{Wrap32, wrap, unwrap}
use tiny_tcp_over_tun.ByteStream
use tiny_tcp_over_tun.ByteStream.{ByteStream}
use tiny_tcp_over_tun.Messages.{
  TcpSenderMessage, TcpReceiverMessage, sequence_length, default_capacity, max_payload_size,
  max_retx_attempts,
}

pub record TcpSender : Type 0 where
  pub input : ByteStream
  pub isn : Wrap32
  pub initial_rto_ms : ℕ
  pub syn_sent : Bool
  pub fin_sent : Bool
  pub ackno : ℕ
  pub next_seqno : ℕ
  pub window_size : ℕ
  pub outstanding_seqno : List TcpSenderMessage
  pub flight_numbers_length : ℕ
  pub time_elapsed : ℕ
  pub current_rto_ms : ℕ
  pub consecutive_retransmissions : ℕ
  pub is_timer_runnning : Bool
  pub cwnd : ℕ
  pub ssthresh : ℕ
  pub consecutive_duplicate_acks : ℕ
  pub fast_retransmit_pending : Bool

unfoldable pub init : ByteStream → Wrap32 → ℕ → TcpSender
init input isn initial_rto_ms = record {
  input = input;
  isn = isn;
  initial_rto_ms = initial_rto_ms;
  syn_sent = false;
  fin_sent = false;
  ackno = 0;
  next_seqno = 0;
  window_size = 1;
  outstanding_seqno = [];
  flight_numbers_length = 0;
  time_elapsed = 0;
  current_rto_ms = initial_rto_ms;
  consecutive_retransmissions = 0;
  is_timer_runnning = false;
  cwnd = default_capacity;
  ssthresh = u64 - 1;
  consecutive_duplicate_acks = 0;
  fast_retransmit_pending = false;
}

unfoldable pub sequence_numbers_in_flight : TcpSender → ℕ
sequence_numbers_in_flight s = s.flight_numbers_length

unfoldable pub make_empty_message : TcpSender → TcpSenderMessage
make_empty_message s = record {
  seqno = wrap s.next_seqno s.isn;
  syn = false;
  payload = [];
  fin = false;
  rst = ByteStream.has_error s.input;
}

-- The first lines of `push`: an oldest segment that waits for its fast retransmission.
unfoldable pub fast_retransmit : TcpSender → List TcpSenderMessage × TcpSender
fast_retransmit s =
    if s.fast_retransmit_pending
    then (take 1 s.outstanding_seqno, record s { fast_retransmit_pending = false })
    else ([], s)

-- A window of zero counts as one, and the congestion window limits it.
unfoldable pub effective_window : TcpSender → ℕ
effective_window s =
    let window = if s.window_size == 0 then 1 else s.window_size in
    if ltb s.cwnd window then s.cwnd else window

-- One round of the loop in `push`: it breaks off, sends a message, or sends one with FIN and stops.
pub data Round : Type 0 where
  stop : TcpSender → Round
  sent last : TcpSenderMessage → TcpSender → Round

-- The books after `transmit( msg )`.
unfoldable pub record_sent : TcpSenderMessage → TcpSender → TcpSender
record_sent msg s = record s {
  outstanding_seqno = s.outstanding_seqno ++ msg ∷ [];
  next_seqno = add64 s.next_seqno (sequence_length msg);
  flight_numbers_length = add64 s.flight_numbers_length (sequence_length msg);
  is_timer_runnning = true;
  input =
      if ltb 0 (length msg.payload) then ByteStream.pop (length msg.payload) s.input else s.input;
}

-- The message is complete: an empty one is not sent.
unfoldable pub emit : TcpSenderMessage → TcpSender → Round
unfolding record_sent
emit msg s =
    if sequence_length msg == 0
    then stop s
    else if msg.fin
    then last msg (record_sent msg s)
    else sent msg (record_sent msg s)

-- The part of a round below the choice of `payload_len`, with what the window has left for a FIN.
unfoldable pub fill : ℕ → ℕ → TcpSenderMessage → TcpSender → Round
unfolding emit
fill payload_len available_window msg s =
    let view = ByteStream.peek s.input in
    let left = sub64 available_window payload_len in
    let fin =
      ByteStream.is_closed s.input
      && not s.fin_sent
      && ltb 0 left
      && (payload_len == length view) in
    emit (record msg { payload = take payload_len view; fin = fin })
      (if fin then record s { fin_sent = true } else s)

unfoldable pub round : ℕ → TcpSender → Round
unfolding fill
round available_window s =
    let view = ByteStream.peek s.input in
    let after_syn = if s.syn_sent then available_window else sub64 available_window 1 in
    let msg : TcpSenderMessage = record (make_empty_message s) {
      syn = not s.syn_sent;
      rst = if ByteStream.has_error s.input then true else (make_empty_message s).rst;
    } in
    let s' : TcpSender = record s { syn_sent = true } in
    let payload_len = min (min max_payload_size after_syn) (length view) in
    if ltb payload_len max_payload_size
      && ltb payload_len (length view)
      && (ltb 0 s.window_size && ltb s.cwnd s.window_size)
    then stop s'
    else fill payload_len after_syn msg s'

abbrev pub Sent : Type 0
Sent = List TcpSenderMessage × TcpSender

-- What follows a round: `next` is the loop from there on.
unfoldable pub proceed : Round → (TcpSender → Option Sent) → Option Sent
proceed (stop s) next = some ([], s)
proceed (last msg s) next = some (msg ∷ [], s)
proceed (sent msg s) next = elim (next s) [ none ↦ none | some (msgs, s') ↦ some (msg ∷ msgs, s') ]

-- `none`: out of fuel.
unfoldable pub push_loop : ℕ → ℕ → TcpSender → Option Sent
unfolding round proceed
push_loop zero window s = none
push_loop (suc fuel) window s =
    let rest =
      proceed (round (sub64 window (sequence_numbers_in_flight s)) s) (push_loop fuel window) in
    if leb window (sequence_numbers_in_flight s) then some ([], s) else rest

-- Each round but the last sends at least one sequence number, so `window + 1` rounds are enough.
unfoldable pub push : TcpSender → Option Sent
unfolding fast_retransmit effective_window push_loop
push s =
    let (again, s') = fast_retransmit s in
    elim (push_loop (suc (effective_window s')) (effective_window s') s') [
      | none ↦ none
      | some (msgs, s'') ↦ some (again ++ msgs, s'')
    ]
