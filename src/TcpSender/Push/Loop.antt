-- ===== src/TcpSender/Push/Loop.antt =====
-- `TCPSender::push` of src/tcp_sender.cc as a whole: what it sends and what it leaves.
use tiny_tcp_over_tun.Common.{
  ℕ, zero, suc, ◌+◌, ◌-◌, min, max, ◌≤◌, ◌<◌, ◌≡◌, ◌⊎◌, ◌||◌, List, [], ◌∷◌, ◌++◌, Bool, true,
  false, Option, none, some, le→leb, lt→leb_false, sub64, u64, arith, refl, ap, ap₂, sym, ◌∙◌,
  lt_cases, inl, inr, subst,
}
use tiny_tcp_over_tun.Messages.{TcpSenderMessage}
use tiny_tcp_over_tun.TcpSender.{
  TcpSender, Round, stop, sent, last, Sent, round, proceed, push_loop, push, fast_retransmit,
  effective_window, sequence_numbers_in_flight,
}
use tiny_tcp_over_tun.TcpSender.Push.{Idle, Emits, Drained, Held, Follows}
use tiny_tcp_over_tun.TcpSender.Push.Again.{
  oldest_again, fast_retransmit-Idle, fast_retransmit-rests, fast_retransmit-oldest,
}
use tiny_tcp_over_tun.TcpSender.Push.OneRound.{round-Follows}
use tiny_tcp_over_tun.TcpSender.Push.Ran.{Ran, Idle-refl, Idle-Ran, Emits-Ran, Idle-Ran-trans}

-- Why no more is sent: the window is full, or there is no room for a whole segment, or nothing is
-- left.
abbrev pub Ended : ℕ → TcpSender → Type 0
Ended window s =
    (window ≤ s.flight_numbers_length) ⊎ Held (window - s.flight_numbers_length) s ⊎ Drained s

-- The loop returned.
pub record Returned (window : ℕ) (s : TcpSender) (result : Option Sent) : Type 0 where
  pub msgs : List TcpSenderMessage
  pub final : TcpSender
  pub returns : result ≡ some (msgs, final)
  pub ran : Ran window s msgs final
  pub pending : final.fast_retransmit_pending ≡ s.fast_retransmit_pending
  pub ended : Ended window final

stays :
    (fuel window : ℕ) (s : TcpSender)
    → window ≤ s.flight_numbers_length
    → push_loop (suc fuel) window s ≡ some ([], s)
unfolding push_loop sequence_numbers_in_flight
stays fuel window s h = rw (le→leb window s.flight_numbers_length h)

goes_on :
    (fuel window : ℕ) (s : TcpSender)
    → s.flight_numbers_length < window
    → window < u64
    → push_loop (suc fuel) window s
      ≡ proceed (round (window - s.flight_numbers_length) s) (push_loop fuel window)
unfolding push_loop sequence_numbers_in_flight
goes_on fuel window s h hw =
    let e : sub64 window s.flight_numbers_length ≡ window - s.flight_numbers_length = omega arith in
    rw (lt→leb_false window s.flight_numbers_length h, e)

or_true : (b : Bool) → (b || true) ≡ true
or_true true = refl
or_true false = refl

-- A round that breaks off changes only a mark.
stopped-Idle : (s s' : TcpSender) → s' ≡ record s { syn_sent = true } → Idle s s'
stopped-Idle s s' e = subst (Idle s) (sym e) (record {
  same = record {
    isn = refl;
    window_size = refl;
    cwnd = refl;
    ackno = refl;
    closed = refl;
    elapsed = refl;
    rto = refl;
    initial_rto = refl;
    ssthresh = refl;
    retransmissions = refl;
    duplicates = refl;
  };
  input = refl;
  outstanding = refl;
  next = refl;
  flight = refl;
  timer = refl;
})

proceed-Returned :
    (window : ℕ) (s : TcpSender) (next : TcpSender → Option Sent) (r : Round)
    → s.flight_numbers_length < window
    → window < u64
    → s.next_seqno + window < u64 + s.flight_numbers_length
    → Follows (window - s.flight_numbers_length) s r
    → ((m : TcpSenderMessage) (t : TcpSender)
        → Emits (window - s.flight_numbers_length) m s t
        → Returned window t (next t))
    → Returned window s (proceed r next)
unfolding proceed
proceed-Returned window s next (stop s') lt hw hn f ih = record {
  msgs = [];
  final = s';
  returns = refl;
  ran = Idle-Ran window s s' (stopped-Idle s s' f.0);
  pending = ap (λ t. t.fast_retransmit_pending) f.0;
  ended = elim f.1 [
    | inl held ↦ inr (
        inl (record {
          limited = held.limited;
          bytes = held.bytes;
          room = omega (arith, held.room, ap (λ t. t.flight_numbers_length) f.0);
        }))
    | inr drained ↦ inr (inr drained)
  ];
}
proceed-Returned window s next (last m t) lt hw hn f ih = record {
  msgs = m ∷ [];
  final = t;
  returns = refl;
  ran = Emits-Ran window m [] s t t lt hw hn f.0 (Idle-Ran window t t (Idle-refl t));
  pending = f.0.pending;
  ended = inr (
      inr (record {
        empty = (f.0.fin f.1).1;
        fin = λ closed. f.0.fin_sent ∙ ap (λ b. s.fin_sent || b) f.1 ∙ or_true s.fin_sent;
      }));
}
proceed-Returned window s next (sent m t) lt hw hn f ih = prepend (ih m t f)
  where
    prepend :
        Returned window t (next t)
        → Returned window s (elim (next t) [ none ↦ none | some (msgs, s') ↦ some (m ∷ msgs, s') ])
    prepend r = record {
      msgs = m ∷ r.msgs;
      final = r.final;
      returns =
          ap (λ (o : Option Sent). elim o [ none ↦ none | some (msgs, s') ↦ some (m ∷ msgs, s') ])
            r.returns;
      ran = Emits-Ran window m r.msgs s t r.final lt hw hn f r.ran;
      pending = r.pending ∙ f.pending;
      ended = r.ended;
    }

pub push_loop-Returned :
    (fuel window : ℕ) (s : TcpSender)
    → window - s.flight_numbers_length < fuel
    → window < u64
    → s.next_seqno + window < u64 + s.flight_numbers_length
    → Returned window s (push_loop fuel window s)
push_loop-Returned zero window s h hw hn = absurd (omega arith)
push_loop-Returned (suc fuel) window s h hw hn = elim (lt_cases s.flight_numbers_length window) [
  | inl lt ↦ subst (Returned window s) (sym (goes_on fuel window s lt hw)) (
      proceed-Returned window s (push_loop fuel window) (round (window - s.flight_numbers_length) s)
        lt hw hn (round-Follows (window - s.flight_numbers_length) s (omega arith) (omega arith))
        (λ m t e.
          push_loop-Returned fuel window t (omega (arith, e.flight, e.fits, e.not_empty)) hw
            (omega (arith, e.flight, e.next, e.fits))))
  | inr le ↦ record {
    msgs = [];
    final = s;
    returns = stays fuel window s le;
    ran = Idle-Ran window s s (Idle-refl s);
    pending = refl;
    ended = inl le;
  }
]

-- The window of the receiver, one instead of zero, as far as the congestion window goes
abbrev pub allowed : TcpSender → ℕ
allowed s = min s.cwnd (max 1 s.window_size)

effective_window-allowed : (s : TcpSender) → effective_window s ≡ allowed s
unfolding effective_window
effective_window-allowed s = ground arith

-- A call of `push` has returned.
pub record Pushed (s : TcpSender) (result : Option Sent) : Type 0 where
  pub msgs : List TcpSenderMessage
  pub final : TcpSender
  pub returns :
      result ≡ some (oldest_again s.fast_retransmit_pending s.outstanding_seqno ++ msgs, final)
  pub ran : Ran (allowed s) s msgs final
  pub rests : final.fast_retransmit_pending ≡ false
  pub ended : Ended (allowed s) final

-- `push` always returns. If a fast retransmission waits, it sends the oldest outstanding segment
-- again, if there is one, and none waits afterwards. Then it sends segments of at most 1000 payload
-- bytes that follow each other in sequence space, carry the next bytes of the stream in order, are
-- kept as outstanding and counted in flight, and leave no more in flight than there was, or than the
-- smaller one of the congestion window and the receiver's window, of which zero counts as one. In
-- the end that window is full; or all bytes have been sent, and the FIN if the stream is closed; or
-- bytes wait, the congestion window is smaller than the receiver's, and the room is for 1000 sequence
-- numbers at most. The window, and the end of it in sequence space, have to lie below 2^64.
pub push-Pushed :
    (s : TcpSender)
    → allowed s < u64
    → s.next_seqno + allowed s < u64 + s.flight_numbers_length
    → Pushed s (push s)
unfolding push
push-Pushed s hw hn =
    finish (fast_retransmit s) (fast_retransmit-oldest s) (fast_retransmit-Idle s)
      (fast_retransmit-rests s)
  where
    finish :
        (p : Sent)
        → p.0 ≡ oldest_again s.fast_retransmit_pending s.outstanding_seqno
        → Idle s p.1
        → p.1.fast_retransmit_pending ≡ false
        → Pushed s (elim (push_loop (suc (effective_window p.1)) (effective_window p.1) p.1) [
          | none ↦ none
          | some (msgs, t) ↦ some (p.0 ++ msgs, t)
        ])
    finish (again, s') e i rests =
        let w : effective_window s' ≡ allowed s =
          effective_window-allowed s'
          ∙ ap₂ (λ (a b : ℕ). min a (max 1 b)) i.same.cwnd i.same.window_size in
        let r =
          push_loop-Returned (suc (effective_window s')) (effective_window s') s' (omega arith)
            (omega arith) (omega (arith, i.next, i.flight)) in
        record {
          msgs = r.msgs;
          final = r.final;
          returns =
              ap
                (λ (o : Option Sent). elim o [
                  | none ↦ none
                  | some (msgs, t) ↦ some (again ++ msgs, t)
                ])
                r.returns
              ∙ ap (λ (q : List TcpSenderMessage). some (q ++ r.msgs, r.final)) e;
          ran =
              subst (λ w. Ran w s r.msgs r.final) w
                (Idle-Ran-trans (effective_window s') s s' r.msgs r.final i r.ran);
          rests = r.pending ∙ rests;
          ended = subst (λ w. Ended w r.final) w r.ended;
        }
