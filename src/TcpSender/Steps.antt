-- ===== src/TcpSender/Steps.antt =====
-- The calls that the owner of a sender makes (src/tcp_sender.hh), as steps from state to state, and
-- what holds after any sequence of them.
pub mod Reach
pub mod Received
pub mod Tick
use tiny_tcp_over_tun.Common.{
  ℕ, zero, suc, ◌+◌, ◌-◌, ◌*◌, ◌/◌, ◌%◌, ◌^◌, max, ◌≤◌, ◌<◌, ◌≡◌, List, [], ◌∷◌, ◌++◌, length, Bool,
  true, false, ltb, leb, ◌==◌, if◌then◌else◌, add64, u64, arith, refl, sym, ap, ◌∙◌, inl, inr,
  lt_cases, le→leb, lt→leb_false, lt→ltb, le→ltb_false, transport, subst, Option, none, some,
}
use tiny_tcp_over_tun.Wrap32.{Wrap32, unwrap}
use tiny_tcp_over_tun.Wrap32.Unwrap.{IsWord}
use tiny_tcp_over_tun.ByteStream
use tiny_tcp_over_tun.Messages.{TcpSenderMessage, TcpReceiverMessage, sequence_length}
use tiny_tcp_over_tun.TcpSender.{TcpSender, Sent, init, push}
use tiny_tcp_over_tun.TcpSender.Acks.{
  pop_acked, new_ack, duplicate_ack, settle_timer, receive_ackno, receive,
}
use tiny_tcp_over_tun.TcpSender.Timer.{tick, time_out, back_off}
use tiny_tcp_over_tun.TcpSender.Push.Loop.{Pushed, push-Pushed, allowed}
use tiny_tcp_over_tun.TcpSender.Push.Ran.{Chained, lengths, Ran}
use tiny_tcp_over_tun.TcpSender.Books.{Books}
use tiny_tcp_over_tun.TcpSender.Books.Receive.{receive-Books, receive_ackno_beyond}

-- The timer: it rests, at zero, when nothing is outstanding, and its timeouts are positive.
pub record Timed (s : TcpSender) : Type 0 where
  pub rests : s.outstanding_seqno ≡ [] → (s.is_timer_runnning ≡ false) × (s.time_elapsed ≡ 0)
  pub rto : 0 < s.current_rto_ms
  pub initial : 0 < s.initial_rto_ms

pub record Sound (s : TcpSender) : Type 0 where
  pub books : Books s
  pub timed : Timed s
  pub window : s.window_size ≤ 65535

zero_plus : (n : ℕ) → n + 0 ≡ n
zero_plus n = omega arith

further : (a b c : ℕ) → a + (b + c) ≡ (a + b) + c
further a b c = omega arith

Chained-++ :
    (isn : Wrap32) (n : ℕ) (xs ys : List TcpSenderMessage)
    → Chained isn n xs
    → Chained isn (n + lengths xs) ys
    → Chained isn n (xs ++ ys)
Chained-++ isn n [] ys c d = transport (λ i. Chained isn (zero_plus n i) ys) d
Chained-++ isn n (x ∷ xs) ys (e, pos, c) d = (
  e,
  pos,
  Chained-++ isn (n + sequence_length x) xs ys c
      (transport (λ i. Chained isn (further n (sequence_length x) (lengths xs) i) ys) d),
)

lengths-++ : (xs ys : List TcpSenderMessage) → lengths (xs ++ ys) ≡ lengths xs + lengths ys
lengths-++ [] ys = omega arith
lengths-++ (x ∷ xs) ys = omega (arith, lengths-++ xs ys)

nil-left : (xs ys : List TcpSenderMessage) → xs ++ ys ≡ [] → (xs ≡ []) × (ys ≡ [])
nil-left [] ys e = (refl, e)
nil-left (x ∷ xs) ys e = absurd (omega (arith, ap length e))

effective_bound : (s : TcpSender) → s.window_size ≤ 65535 → allowed s ≤ 65535
effective_bound s h = omega arith

-- What `push` leaves is sound.
push-Sound :
    (s : TcpSender) (msgs : List TcpSenderMessage) (t : TcpSender)
    → Sound s
    → s.next_seqno + 65535 < u64
    → Ran (allowed s) s msgs t
    → Sound t
push-Sound s msgs t so hn r = record {
  books = record {
    word = transport (λ i. IsWord (sym r.same.isn i)) b.word;
    una = b.una;
    chained =
        transport (λ i. Chained (sym r.same.isn i) b.una (sym r.outstanding i))
          (Chained-++ s.isn b.una s.outstanding_seqno msgs b.chained
            (transport (λ i. Chained s.isn (sym b.total i) msgs) r.chained));
    total =
        omega
          (arith, b.total, r.next, ap lengths r.outstanding, lengths-++ s.outstanding_seqno msgs);
    flight =
        omega (
          arith,
          b.flight,
          r.flight,
          ap lengths r.outstanding,
          lengths-++ s.outstanding_seqno msgs,
        );
    bound = omega (arith, r.bound, b.bound, effective_bound s so.window);
    acked = omega (arith, b.acked, r.same.ackno);
    next = omega (arith, r.next, r.flight, r.bound, b.bound, effective_bound s so.window);
  };
  timed = record {
    rests = λ e.
        let (old, new) = nil-left s.outstanding_seqno msgs (sym r.outstanding ∙ e) in
        let (running, elapsed) = so.timed.rests old in
        (r.timer new ∙ running, r.same.elapsed ∙ elapsed);
    rto = omega (arith, r.same.rto, so.timed.rto);
    initial = omega (arith, r.same.initial_rto, so.timed.initial);
  };
  window = omega (arith, r.same.window_size, so.window);
}
  where
    b : Books s
    b = so.books

-- The time on the clock when `tick` compares it.
abbrev pub clock : ℕ → TcpSender → ℕ
clock ms s = if s.is_timer_runnning then add64 s.time_elapsed ms else s.time_elapsed

-- A call of `tick` has returned.
pub record Ticked (ms : ℕ) (s : TcpSender) (result : Option Sent) : Type 0 where
  pub msgs : List TcpSenderMessage
  pub final : TcpSender
  pub returns : result ≡ some (msgs, final)
  pub sound : Sound final
  pub early :
      clock ms s < s.current_rto_ms → (msgs ≡ []) × (final ≡ record s { time_elapsed = clock ms s })
  pub late :
      s.current_rto_ms ≤ clock ms s
      → (m : TcpSenderMessage) × (rest : List TcpSenderMessage) × (s.outstanding_seqno ≡ m ∷ rest)
        × (msgs ≡ m ∷ [])
        × (final.time_elapsed ≡ 0)
        × (final.current_rto_ms
            ≡ (if ltb 0 s.window_size then 2 * s.current_rto_ms else s.current_rto_ms))

-- What the timeout changes is not in the books.
back_off-Sound :
    (s t : TcpSender) (m : TcpSenderMessage) (rest : List TcpSenderMessage)
    → Sound s
    → s.outstanding_seqno ≡ m ∷ rest
    → t.isn ≡ s.isn
    → t.outstanding_seqno ≡ s.outstanding_seqno
    → t.next_seqno ≡ s.next_seqno
    → t.flight_numbers_length ≡ s.flight_numbers_length
    → t.ackno ≡ s.ackno
    → t.window_size ≡ s.window_size
    → t.initial_rto_ms ≡ s.initial_rto_ms
    → 0 < t.current_rto_ms
    → Sound t
back_off-Sound s t m rest so e isn out next flight ackno window initial rto = record {
  books = record {
    word = transport (λ i. IsWord (sym isn i)) b.word;
    una = b.una;
    chained = transport (λ i. Chained (sym isn i) b.una (sym out i)) b.chained;
    total = omega (arith, b.total, next, ap lengths out);
    flight = omega (arith, b.flight, flight, ap lengths out);
    bound = omega (arith, flight, b.bound);
    acked = omega (arith, b.acked, ackno);
    next = omega (arith, next, b.next);
  };
  timed = record {
    rests = λ nil. absurd (omega (arith, ap length (sym e ∙ sym out ∙ nil)));
    rto = rto;
    initial = omega (arith, initial, so.timed.initial);
  };
  window = omega (arith, window, so.window);
}
  where
    b : Books s
    b = so.books
