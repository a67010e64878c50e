-- ===== src/TcpSender/Steps/Reach.antt =====
-- Every sequence of calls on a sender of src/tcp_sender.hh, from the constructor on.
use tiny_tcp_over_tun.Common.{
  ℕ, ◌+◌, ◌^◌, ◌≤◌, ◌<◌, ◌≡◌, List, u64, arith, refl, sym, ap, ◌∙◌, subst, Option, none, some,
}
use tiny_tcp_over_tun.Wrap32.{Wrap32}
use tiny_tcp_over_tun.Wrap32.Unwrap.{IsWord}
use tiny_tcp_over_tun.ByteStream.{ByteStream}
use tiny_tcp_over_tun.Messages.{TcpSenderMessage, TcpReceiverMessage}
use tiny_tcp_over_tun.TcpSender.{TcpSender, Sent, init, push}
use tiny_tcp_over_tun.TcpSender.Acks.{receive}
use tiny_tcp_over_tun.TcpSender.Timer.{tick}
use tiny_tcp_over_tun.TcpSender.Push.Loop.{Pushed, push-Pushed}
use tiny_tcp_over_tun.TcpSender.Books.Receive.{receive-Books}
use tiny_tcp_over_tun.TcpSender.Steps.{Sound, push-Sound, effective_bound}
use tiny_tcp_over_tun.TcpSender.Steps.Tick.{tick-Ticked}
use tiny_tcp_over_tun.TcpSender.Steps.Received.{receive-Timed, window_received}

-- A new sender is sound.
pub init-Sound :
    (input : ByteStream) (isn : Wrap32) (rto : ℕ)
    → IsWord isn
    → 0 < rto
    → Sound (init input isn rto)
unfolding init
init-Sound input isn rto hw hr = record {
  books = record {
    word = hw;
    una = 0;
    chained = tt;
    total = refl;
    flight = refl;
    bound = omega arith;
    acked = omega arith;
    next = omega arith;
  };
  timed = record { rests = λ _. (refl, refl); rto = hr; initial = hr };
  window = omega arith;
}

-- A call on the sender. The application works on the stream at will; a window is a `uint16_t`; the
-- sequence space and the timeout have not come near 2^64.
pub data Step : TcpSender → TcpSender → Type 0 where
  write : {s : TcpSender} (input : ByteStream) → Step s (record s { input = input })
  pushed :
      {s t : TcpSender} (msgs : List TcpSenderMessage)
      → s.next_seqno + 65535 < u64
      → push s ≡ some (msgs, t)
      → Step s t
  received :
      {s : TcpSender} (msg : TcpReceiverMessage) → msg.window_size ≤ 65535 → Step s (receive msg s)
  ticked :
      {s t : TcpSender} (ms : ℕ) (msgs : List TcpSenderMessage)
      → s.current_rto_ms < 2 ^ 63
      → tick ms s ≡ some (msgs, t)
      → Step s t

pub data Reach : TcpSender → TcpSender → Type 0 where
  here : {s : TcpSender} → Reach s s
  then_step : {s t u : TcpSender} → Reach s t → Step t u → Reach s u

write-Sound : (s : TcpSender) (input : ByteStream) → Sound s → Sound (record s { input = input })
write-Sound s input so = record {
  books = record {
    word = so.books.word;
    una = so.books.una;
    chained = so.books.chained;
    total = so.books.total;
    flight = so.books.flight;
    bound = so.books.bound;
    acked = so.books.acked;
    next = so.books.next;
  };
  timed = record { rests = so.timed.rests; rto = so.timed.rto; initial = so.timed.initial };
  window = so.window;
}

-- The state of a result that two runs agree on.
the_state : {p q : Sent} → some p ≡ some q → p.1 ≡ q.1
the_state {p = p} e = ap (λ (o : Option Sent). elim o [ none ↦ p.1 | some r ↦ r.1 ]) e

-- A sound sender's `push` always returns.
pub push_returns : (s : TcpSender) → Sound s → s.next_seqno + 65535 < u64 → Pushed s (push s)
push_returns s so h =
    let w = effective_bound s so.window in push-Pushed s (omega (arith, w)) (omega (arith, w))

-- Every call keeps a sender sound.
pub Step-Sound : {s t : TcpSender} → Step s t → Sound s → Sound t
Step-Sound (write {s = s} input) so = write-Sound s input so
Step-Sound (pushed {s = s} {t = t} msgs h e) so =
    let r = push_returns s so h in
    subst Sound (the_state (sym r.returns ∙ e)) (push-Sound s r.msgs r.final so h r.ran)
Step-Sound (received {s = s} msg h) so = record {
  books = receive-Books msg s so.books;
  timed = receive-Timed msg s so.timed;
  window = omega (arith, window_received msg s);
}
Step-Sound (ticked {s = s} ms msgs h e) so =
    let r = tick-Ticked ms s so h in subst Sound (the_state (sym r.returns ∙ e)) r.sound

-- In every state that calls lead to from a sound one, windows being 16-bit numbers and the next
-- sequence number and the timeout far enough below 2^64: what is outstanding is a chain of
-- segments that ends at the next sequence number, what is in flight is their total length, at most
-- 65535, the timer rests when nothing is outstanding, and the timeout is positive.
pub Reach-Sound : {s t : TcpSender} → Reach s t → Sound s → Sound t
Reach-Sound here so = so
Reach-Sound (then_step r st) so = Step-Sound st (Reach-Sound r so)
