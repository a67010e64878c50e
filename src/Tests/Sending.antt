-- ===== src/Tests/Sending.antt =====
-- The theorems on the sending side (src/tcp_sender.cc) at concrete inputs.
use tiny_tcp_over_tun.Common.{
  ℕ, ◌≤◌, ◌≡◌, List, [], ◌∷◌, length, true, false, some, arith, refl, ap,
}
use tiny_tcp_over_tun.Wrap32.{Wrap32, wrap}
use tiny_tcp_over_tun.Messages.{TcpSenderMessage, TcpReceiverMessage, sequence_length}
use tiny_tcp_over_tun.TcpSender.{TcpSender, push, round}
use tiny_tcp_over_tun.TcpSender.Acks.{receive_ackno, receive, pop_acked, avoid_loop, grow}
use tiny_tcp_over_tun.TcpSender.Acks.Congestion.{grow_bounds, grow_per_window}
use tiny_tcp_over_tun.TcpSender.Timer.{tick}
use tiny_tcp_over_tun.TcpSender.Push.{Follows}
use tiny_tcp_over_tun.TcpSender.Push.OneRound.{round-Follows}
use tiny_tcp_over_tun.TcpSender.Push.Loop.{Pushed, push-Pushed}
use tiny_tcp_over_tun.TcpSender.Books.{Books, Popped, pop_acked-Popped}
use tiny_tcp_over_tun.TcpSender.Books.Receive.{
  Removed, receive_ackno-Removed, receive_ackno_beyond, receive-Books,
}
use tiny_tcp_over_tun.TcpSender.Steps.{Sound, Ticked}
use tiny_tcp_over_tun.TcpSender.Steps.Tick.{tick-Ticked}
use tiny_tcp_over_tun.TcpSender.Steps.Reach.{here, then_step, received, Reach-Sound}

abbrev start : Wrap32
start = record { raw_value = 4294967295 }

abbrev segment : ℕ → List ℕ → TcpSenderMessage
segment n bytes = record {
  seqno = wrap n start;
  syn = false;
  payload = bytes;
  fin = false;
  rst = false;
}

-- A sender in the middle of a stream: five bytes are in flight in two segments, and three wait.
abbrev pub sender : TcpSender
sender = record {
  input = record {
    capacity = 100;
    error = false;
    buffer = 6 ∷ 7 ∷ 8 ∷ [];
    total_pushed = 8;
    total_poped = 5;
    closed = true;
  };
  isn = start;
  initial_rto_ms = 1000;
  syn_sent = true;
  fin_sent = false;
  ackno = 1;
  next_seqno = 6;
  window_size = 7;
  outstanding_seqno = segment 1 (1 ∷ 2 ∷ []) ∷ segment 3 (3 ∷ 4 ∷ 5 ∷ []) ∷ [];
  flight_numbers_length = 5;
  time_elapsed = 900;
  current_rto_ms = 1000;
  consecutive_retransmissions = 0;
  is_timer_runnning = true;
  cwnd = 64000;
  ssthresh = 4000;
  consecutive_duplicate_acks = 2;
  fast_retransmit_pending = true;
}

two_long : sequence_length (segment 1 (1 ∷ 2 ∷ [])) ≡ 2
unfolding sequence_length
two_long = refl

three_long : sequence_length (segment 3 (3 ∷ 4 ∷ 5 ∷ [])) ≡ 3
unfolding sequence_length
three_long = refl

sender-Books : Books sender
unfolding sequence_length
sender-Books = record {
  word = omega arith;
  una = 1;
  chained = (refl, omega arith, (refl, omega arith, tt));
  total = refl;
  flight = refl;
  bound = omega arith;
  acked = omega arith;
  next = omega arith;
}

pub sender-Sound : Sound sender
sender-Sound = record {
  books = sender-Books;
  timed = record {
    rests = λ e. absurd (omega (arith, ap length e));
    rto = omega arith;
    initial = omega arith;
  };
  window = omega arith;
}

push-Pushed_example : Pushed sender (push sender)
push-Pushed_example = push-Pushed sender (omega arith) (omega arith)

round-Follows_example : Follows 2 sender (round 2 sender)
round-Follows_example = round-Follows 2 sender (omega arith) (omega arith)

receive_ackno_beyond_example : receive_ackno 7 sender ≡ sender
receive_ackno_beyond_example = receive_ackno_beyond 7 sender (omega arith)

receive_ackno-Removed_example : Removed 4 sender-Books.una sender (receive_ackno 4 sender)
receive_ackno-Removed_example = receive_ackno-Removed 4 sender sender-Books (omega arith)

-- An acknowledgment in the middle of the second segment.
abbrev partial : TcpReceiverMessage
partial = record { ackno = some (wrap 4 start); window_size = 9; rst = false }

receive-Books_example : Books (receive partial sender)
receive-Books_example = receive-Books partial sender sender-Books

pop_acked-Popped_example :
    Popped 4 sender-Books.una sender.outstanding_seqno sender
      (pop_acked 4 sender.outstanding_seqno sender)
pop_acked-Popped_example =
    pop_acked-Popped 4 sender-Books.una sender.outstanding_seqno sender (omega arith)
      sender-Books.chained sender-Books.total (omega arith) (omega (arith, sender-Books.flight))
      (omega (arith, sender-Books.flight)) (omega arith)

tick-Ticked_example : Ticked 100 sender (tick 100 sender)
tick-Ticked_example = tick-Ticked 100 sender sender-Sound (omega arith)

Reach-Sound_example : Sound (receive partial sender)
Reach-Sound_example = Reach-Sound (then_step here (received partial (omega arith))) sender-Sound

grow_bounds_example : (64000 ≤ grow 2500 sender) × (grow 2500 sender ≤ 66500)
grow_bounds_example = grow_bounds 2500 sender (omega arith) (omega arith)

-- Above its slow start threshold
abbrev avoiding : TcpSender
avoiding = record sender { cwnd = 4000; ssthresh = 2000 }

grow_per_window_example : grow 2500 avoiding ≤ 5000
grow_per_window_example =
    grow_per_window 2500 avoiding (omega arith) (omega arith) (omega arith) (omega arith)

grown : avoid_loop 2501 2500 4000 ≡ 4596
unfolding avoid_loop
grown = refl
