-- ===== src/TcpSender/Steps/Received.antt =====
-- What `TCPSender::receive` of src/tcp_sender.cc does to the timer, the window and the next sequence
-- number.
use tiny_tcp_over_tun.Common.{
  ℕ, ◌≤◌, ◌<◌, ◌≡◌, List, [], ◌∷◌, length, Bool, true, false, ltb, ◌==◌, if◌then◌else◌, sub64,
  arith, refl, sym, ap, ◌∙◌, inl, inr, lt_cases, le→ltb_false, subst, Option, none, some,
}
use tiny_tcp_over_tun.Wrap32.{Wrap32, unwrap}
use tiny_tcp_over_tun.ByteStream
use tiny_tcp_over_tun.ByteStream.{ByteStream}
use tiny_tcp_over_tun.Messages.{TcpSenderMessage, TcpReceiverMessage, sequence_length}
use tiny_tcp_over_tun.TcpSender.{TcpSender}
use tiny_tcp_over_tun.TcpSender.Acks.{
  pop_acked, new_ack, duplicate_ack, settle_timer, receive_ackno, receive,
}
use tiny_tcp_over_tun.TcpSender.Books.{Books}
use tiny_tcp_over_tun.TcpSender.Books.Receive.{receive_ackno_beyond, receive_ackno-Removed}
use tiny_tcp_over_tun.TcpSender.Steps.{Sound, Timed}

-- The timeouts stay positive.
counted-rto :
    (a : ℕ) (s : TcpSender)
    → 0 < s.current_rto_ms
    → 0 < s.initial_rto_ms
    → 0
      < (if ltb s.ackno a
          then new_ack a s
          else if a == s.ackno
          then duplicate_ack s
          else s).current_rto_ms
unfolding new_ack duplicate_ack
counted-rto a s h k = ground arith

counted-initial :
    (a : ℕ) (s : TcpSender)
    → (if ltb s.ackno a
        then new_ack a s
        else if a == s.ackno
        then duplicate_ack s
        else s).initial_rto_ms
      ≡ s.initial_rto_ms
unfolding new_ack duplicate_ack
counted-initial a s = ground arith

-- An empty queue stops the timer.
settle_timer-rests :
    (a : ℕ) (s : TcpSender)
    → (settle_timer a s).outstanding_seqno ≡ []
    → ((settle_timer a s).is_timer_runnning ≡ false) × ((settle_timer a s).time_elapsed ≡ 0)
unfolding settle_timer
settle_timer-rests a s e =
    let same : (settle_timer a s).outstanding_seqno ≡ s.outstanding_seqno = ground arith in
    let none_left : length s.outstanding_seqno ≡ 0 = ap length (sym same ∙ e) in
    (ground (arith, none_left), ground (arith, none_left))

settle_timer-rto :
    (a : ℕ) (s : TcpSender)
    → ((settle_timer a s).current_rto_ms ≡ s.current_rto_ms)
      × ((settle_timer a s).initial_rto_ms ≡ s.initial_rto_ms)
unfolding settle_timer
settle_timer-rto a s = (ground arith, ground arith)

pop_acked-rto :
    (a : ℕ) (msgs : List TcpSenderMessage) (s : TcpSender)
    → ((pop_acked a msgs s).current_rto_ms ≡ s.current_rto_ms)
      × ((pop_acked a msgs s).initial_rto_ms ≡ s.initial_rto_ms)
unfolding pop_acked
pop_acked-rto a [] s = (refl, refl)
pop_acked-rto a (m ∷ msgs) s =
    let t = record s {
      flight_numbers_length = sub64 s.flight_numbers_length (sequence_length m);
    } in
    let (rto, initial) = pop_acked-rto a msgs t in (ground (arith, rto), ground (arith, initial))

abbrev counted : ℕ → TcpSender → TcpSender
counted a s = if ltb s.ackno a then new_ack a s else if a == s.ackno then duplicate_ack s else s

abbrev popped : ℕ → TcpSender → TcpSender
popped a s = pop_acked a (counted a s).outstanding_seqno (counted a s)

receive_ackno_within :
    (a : ℕ) (s : TcpSender) → a ≤ s.next_seqno → receive_ackno a s ≡ settle_timer a (popped a s)
unfolding receive_ackno
receive_ackno_within a s h = rw (le→ltb_false s.next_seqno a h)

receive_ackno-Timed : (a : ℕ) (s : TcpSender) → Timed s → Timed (receive_ackno a s)
receive_ackno-Timed a s t = elim (lt_cases s.next_seqno a) [
  | inl lt ↦ subst Timed (sym (receive_ackno_beyond a s lt)) t
  | inr le ↦ subst Timed (sym (receive_ackno_within a s le)) (record {
    rests = settle_timer-rests a (popped a s);
    rto = omega (
      arith,
      counted-rto a s t.rto t.initial,
      (settle_timer-rto a (popped a s)).0,
      (pop_acked-rto a (counted a s).outstanding_seqno (counted a s)).0,
    );
    initial = omega (
      arith,
      t.initial,
      counted-initial a s,
      (settle_timer-rto a (popped a s)).1,
      (pop_acked-rto a (counted a s).outstanding_seqno (counted a s)).1,
    );
  })
]

pub receive-Timed : (msg : TcpReceiverMessage) (s : TcpSender) → Timed s → Timed (receive msg s)
unfolding receive
receive-Timed msg s t = either msg.rst msg.ackno
  where
    windowed :
        (input : ByteStream) → Timed (record s { input = input; window_size = msg.window_size })
    windowed input = record { rests = t.rests; rto = t.rto; initial = t.initial }

    either :
        (rst : Bool) (ackno : Option Wrap32)
        → Timed (
            let reset = if rst then record s { input = ByteStream.set_error s.input } else s in
            let windowed : TcpSender = record reset { window_size = msg.window_size } in
            elim ackno [
              | none ↦ windowed
              | some n ↦ receive_ackno (unwrap n windowed.isn windowed.next_seqno) windowed
            ])
    either true none = windowed (ByteStream.set_error s.input)
    either false none = windowed s.input
    either true (some n) = receive_ackno-Timed _ _ (windowed (ByteStream.set_error s.input))
    either false (some n) = receive_ackno-Timed _ _ (windowed s.input)

receive_ackno-next :
    (a : ℕ) (s : TcpSender) → Books s → (receive_ackno a s).next_seqno ≡ s.next_seqno
receive_ackno-next a s b = elim (lt_cases s.next_seqno a) [
  | inl lt ↦ ap (λ t. t.next_seqno) (receive_ackno_beyond a s lt)
  | inr le ↦ (receive_ackno-Removed a s b le).next
]

-- `receive` sends nothing.
pub received-next :
    (msg : TcpReceiverMessage) (s : TcpSender) → Sound s → (receive msg s).next_seqno ≡ s.next_seqno
unfolding receive
received-next msg s so = either msg.rst msg.ackno
  where
    windowed :
        (input : ByteStream) → Books (record s { input = input; window_size = msg.window_size })
    windowed input = record {
      word = so.books.word;
      una = so.books.una;
      chained = so.books.chained;
      total = so.books.total;
      flight = so.books.flight;
      bound = so.books.bound;
      acked = so.books.acked;
      next = so.books.next;
    }

    either :
        (rst : Bool) (ackno : Option Wrap32)
        → (let reset = if rst then record s { input = ByteStream.set_error s.input } else s in
            let windowed : TcpSender = record reset { window_size = msg.window_size } in
            let received : TcpSender = elim ackno [
              | none ↦ windowed
              | some n ↦ receive_ackno (unwrap n windowed.isn windowed.next_seqno) windowed
            ] in
            received.next_seqno)
          ≡ s.next_seqno
    either true none = refl
    either false none = refl
    either true (some n) =
        receive_ackno-next (unwrap n s.isn s.next_seqno)
          (record s { input = ByteStream.set_error s.input; window_size = msg.window_size })
          (windowed (ByteStream.set_error s.input))
    either false (some n) =
        receive_ackno-next (unwrap n s.isn s.next_seqno)
          (record s { window_size = msg.window_size }) (windowed s.input)

pop_acked-window :
    (a : ℕ) (msgs : List TcpSenderMessage) (s : TcpSender)
    → (pop_acked a msgs s).window_size ≡ s.window_size
unfolding pop_acked
pop_acked-window a [] s = refl
pop_acked-window a (m ∷ msgs) s =
    let t = record s {
      flight_numbers_length = sub64 s.flight_numbers_length (sequence_length m);
    } in
    ground (arith, pop_acked-window a msgs t)

receive_ackno-window : (a : ℕ) (s : TcpSender) → (receive_ackno a s).window_size ≡ s.window_size
unfolding receive_ackno settle_timer new_ack duplicate_ack
receive_ackno-window a s =
    ground (arith, pop_acked-window a (counted a s).outstanding_seqno (counted a s))

pub window_received :
    (msg : TcpReceiverMessage) (s : TcpSender) → (receive msg s).window_size ≡ msg.window_size
unfolding receive
window_received msg s = either msg.rst msg.ackno
  where
    either :
        (rst : Bool) (ackno : Option Wrap32)
        → (let reset = if rst then record s { input = ByteStream.set_error s.input } else s in
            let windowed : TcpSender = record reset { window_size = msg.window_size } in
            let received : TcpSender = elim ackno [
              | none ↦ windowed
              | some n ↦ receive_ackno (unwrap n windowed.isn windowed.next_seqno) windowed
            ] in
            received.window_size)
          ≡ msg.window_size
    either true none = refl
    either false none = refl
    either true (some n) =
        receive_ackno-window (unwrap n s.isn s.next_seqno)
          (record s { input = ByteStream.set_error s.input; window_size = msg.window_size })
    either false (some n) =
        receive_ackno-window (unwrap n s.isn s.next_seqno)
          (record s { window_size = msg.window_size })
