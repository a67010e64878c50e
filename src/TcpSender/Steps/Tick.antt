-- ===== src/TcpSender/Steps/Tick.antt =====
-- `TCPSender::tick` of src/tcp_sender.cc: the clock, the timeout and the retransmission.
use tiny_tcp_over_tun.Common.{
  ℕ, ◌*◌, ◌^◌, ◌≤◌, ◌<◌, ◌≡◌, List, [], ◌∷◌, false, ltb, if◌then◌else◌, arith, refl, ap, ◌∙◌, inl,
  inr, ◌⊎◌, lt_cases, le→leb, lt→leb_false, some,
}
use tiny_tcp_over_tun.Messages.{TcpSenderMessage}
use tiny_tcp_over_tun.TcpSender.{TcpSender}
use tiny_tcp_over_tun.TcpSender.Timer.{tick, time_out, back_off}
use tiny_tcp_over_tun.TcpSender.Steps.{Sound, Ticked, clock, back_off-Sound}

queue_cases :
    (q : List TcpSenderMessage)
    → (q ≡ []) ⊎ ((m : TcpSenderMessage) × (rest : List TcpSenderMessage) × (q ≡ m ∷ rest))
queue_cases [] = inl refl
queue_cases (m ∷ rest) = inr (m, rest, refl)

clock_rests : (ms : ℕ) (s : TcpSender) → s.is_timer_runnning ≡ false → clock ms s ≡ s.time_elapsed
clock_rests ms s e = ground arith

timed_out-Sound :
    (s : TcpSender) (m : TcpSenderMessage) (rest : List TcpSenderMessage)
    → Sound s
    → s.outstanding_seqno ≡ m ∷ rest
    → s.current_rto_ms < 2 ^ 63
    → Sound (back_off (record s { time_elapsed = 0 }))
unfolding back_off
timed_out-Sound s m rest so e h =
    back_off-Sound s (back_off (record s { time_elapsed = 0 })) m rest so e (ground arith)
      (ground arith) (ground arith) (ground arith) (ground arith) (ground arith) (ground arith)
      (ground (arith, so.timed.rto))

time_out_first :
    (m : TcpSenderMessage) (rest : List TcpSenderMessage) (s t : TcpSender)
    → record t { time_elapsed = 0 } ≡ record s { time_elapsed = 0 }
    → time_out (m ∷ rest) t ≡ some (m ∷ [], back_off (record s { time_elapsed = 0 }))
unfolding time_out
time_out_first m rest s t e = ap (λ u. some (m ∷ [], back_off u)) e

elapsed : (s : TcpSender) → (back_off (record s { time_elapsed = 0 })).time_elapsed ≡ 0
unfolding back_off
elapsed s = ground arith

timeout :
    (s : TcpSender)
    → s.current_rto_ms < 2 ^ 63
    → (back_off (record s { time_elapsed = 0 })).current_rto_ms
      ≡ (if ltb 0 s.window_size then 2 * s.current_rto_ms else s.current_rto_ms)
unfolding back_off
timeout s h = ground arith

-- A sound sender's `tick`, with a timeout below 2^63, always returns and leaves a sound sender.
-- Below the timeout it sends nothing and only the clock moves; from the timeout on there is an
-- oldest outstanding segment, it is sent again, the clock restarts, and the timeout doubles if the
-- window is open and stays if it is not.
pub tick-Ticked :
    (ms : ℕ) (s : TcpSender) → Sound s → s.current_rto_ms < 2 ^ 63 → Ticked ms s (tick ms s)
unfolding tick
tick-Ticked ms s so h = elim (lt_cases (clock ms s) s.current_rto_ms) [
  | inl lt ↦ rw (lt→leb_false s.current_rto_ms (clock ms s) lt) (early-Ticked lt)
  | inr le ↦
      rw (le→leb s.current_rto_ms (clock ms s) le)
        (late-Ticked le (queue_cases s.outstanding_seqno))
]
  where
    clocked : TcpSender
    clocked = record s { time_elapsed = clock ms s }

    early-Ticked : clock ms s < s.current_rto_ms → Ticked ms s (some ([], clocked))
    early-Ticked lt = record {
      msgs = [];
      final = clocked;
      returns = refl;
      sound = record {
        books = record {
          word = so.books.word;
          una = so.books.una;
          chained = so.books.chained;
          total = so.books.total;
          flight = so.books.flight;
          bound = so.books.bound;
          acked = so.books.acked;
          next = so.books.next;
        };
        timed = record {
          rests = λ nil.
              let (stopped, zeroed) = so.timed.rests nil in
              (stopped, clock_rests ms s stopped ∙ zeroed);
          rto = so.timed.rto;
          initial = so.timed.initial;
        };
        window = so.window;
      };
      early = λ _. (refl, refl);
      late = λ le. absurd (omega arith);
    }

    late-Ticked :
        s.current_rto_ms ≤ clock ms s
        → (s.outstanding_seqno ≡ [])
          ⊎ ((m : TcpSenderMessage) × (rest : List TcpSenderMessage) × (s.outstanding_seqno
                ≡ m ∷ rest))
        → Ticked ms s (time_out s.outstanding_seqno clocked)
    late-Ticked le (inl nil) =
        let (stopped, zeroed) = so.timed.rests nil in
        absurd (omega (arith, clock_rests ms s stopped, so.timed.rto))
    late-Ticked le (inr (m, rest, e)) = record {
      msgs = m ∷ [];
      final = back_off (record s { time_elapsed = 0 });
      returns = ap (λ q. time_out q clocked) e ∙ time_out_first m rest s clocked refl;
      sound = timed_out-Sound s m rest so e h;
      early = λ lt. absurd (omega arith);
      late = λ _. (m, rest, e, refl, elapsed s, timeout s h);
    }
