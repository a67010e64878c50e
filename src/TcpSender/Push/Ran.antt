-- ===== src/TcpSender/Push/Ran.antt =====
-- Runs of segments, and what a part of the loop in `TCPSender::push` (src/tcp_sender.cc) does.
use tiny_tcp_over_tun.Common.{
  ℕ, ◌+◌, ◌-◌, max, ◌≤◌, ◌<◌, ◌≡◌, List, [], ◌∷◌, ◌++◌, length, u64, arith, refl, ap, sym, ◌∙◌,
  append_assoc, append-nil, transport,
}
use tiny_tcp_over_tun.Wrap32.{Wrap32, wrap}
use tiny_tcp_over_tun.Messages.{TcpSenderMessage, sequence_length, max_payload_size}
use tiny_tcp_over_tun.TcpSender.{TcpSender}
use tiny_tcp_over_tun.TcpSender.Push.{Same, Idle, Emits}

-- The bytes, and the sequence numbers, of a run of segments.
abbrev pub payloads : List TcpSenderMessage → List ℕ
payloads [] = []
payloads (m ∷ msgs) = m.payload ++ payloads msgs

abbrev pub lengths : List TcpSenderMessage → ℕ
lengths [] = 0
lengths (m ∷ msgs) = sequence_length m + lengths msgs

-- Every segment starts where the one before it ends, the first at `n`.
abbrev pub Chained : Wrap32 → ℕ → List TcpSenderMessage → Type 0
Chained isn n [] = Unit {0}
Chained isn n (m ∷ msgs) =
    (m.seqno ≡ wrap n isn) × (0 < sequence_length m) × Chained isn (n + sequence_length m) msgs

abbrev pub AllSmall : List TcpSenderMessage → Type 0
AllSmall [] = Unit {0}
AllSmall (m ∷ msgs) = (length m.payload ≤ max_payload_size) × AllSmall msgs

pub record Ran (window : ℕ) (s : TcpSender) (msgs : List TcpSenderMessage) (s' : TcpSender)
    : Type 0 where
  pub same : Same s s'
  pub in_order : payloads msgs ++ s'.input.buffer ≡ s.input.buffer
  pub outstanding : s'.outstanding_seqno ≡ s.outstanding_seqno ++ msgs
  pub next : s'.next_seqno ≡ s.next_seqno + lengths msgs
  pub flight : s'.flight_numbers_length ≡ s.flight_numbers_length + lengths msgs
  pub bound : s'.flight_numbers_length ≤ max s.flight_numbers_length window
  pub chained : Chained s.isn s.next_seqno msgs
  pub small : AllSmall msgs
  pub timer : msgs ≡ [] → s'.is_timer_runnning ≡ s.is_timer_runnning

pub Same-refl : (s : TcpSender) → Same s s
Same-refl s = record {
  isn = refl;
  window_size = refl;
  cwnd = refl;
  ackno = refl;
  closed = refl;
  elapsed = refl;
  rto = refl;
  initial_rto = refl;
  ssthresh = refl;
  retransmissions = refl;
  duplicates = refl;
}

pub Idle-refl : (s : TcpSender) → Idle s s
Idle-refl s = record {
  same = Same-refl s;
  input = refl;
  outstanding = refl;
  next = refl;
  flight = refl;
  timer = refl;
}

Same-trans : {s t u : TcpSender} → Same s t → Same t u → Same s u
Same-trans a b = record {
  isn = b.isn ∙ a.isn;
  window_size = b.window_size ∙ a.window_size;
  cwnd = b.cwnd ∙ a.cwnd;
  ackno = b.ackno ∙ a.ackno;
  closed = b.closed ∙ a.closed;
  elapsed = b.elapsed ∙ a.elapsed;
  rto = b.rto ∙ a.rto;
  initial_rto = b.initial_rto ∙ a.initial_rto;
  ssthresh = b.ssthresh ∙ a.ssthresh;
  retransmissions = b.retransmissions ∙ a.retransmissions;
  duplicates = b.duplicates ∙ a.duplicates;
}

pub Idle-Ran : (window : ℕ) (s s' : TcpSender) → Idle s s' → Ran window s [] s'
Idle-Ran window s s' i = record {
  same = i.same;
  in_order = ap (λ b. b.buffer) i.input;
  outstanding = i.outstanding ∙ sym (append-nil s.outstanding_seqno);
  next = omega (arith, i.next);
  flight = omega (arith, i.flight);
  bound = omega (arith, i.flight);
  chained = tt;
  small = tt;
  timer = λ _. i.timer;
}

-- A segment in front of a run.
pub Emits-Ran :
    (window : ℕ) (m : TcpSenderMessage) (msgs : List TcpSenderMessage) (s t u : TcpSender)
    → s.flight_numbers_length < window
    → window < u64
    → s.next_seqno + window < u64 + s.flight_numbers_length
    → Emits (window - s.flight_numbers_length) m s t
    → Ran window t msgs u
    → Ran window s (m ∷ msgs) u
Emits-Ran window m msgs s t u lt hw hn e r = record {
  same = Same-trans e.same r.same;
  in_order =
      append_assoc m.payload (payloads msgs) u.input.buffer
      ∙ ap (◌++◌ m.payload) r.in_order
      ∙ e.in_order;
  outstanding =
      r.outstanding
      ∙ ap (λ q. q ++ msgs) e.outstanding
      ∙ append_assoc s.outstanding_seqno (m ∷ []) msgs;
  next = omega (arith, r.next, next);
  flight = omega (arith, r.flight, flight);
  bound = omega (arith, r.bound, flight, e.fits);
  chained = (e.seqno, e.not_empty, transport (λ i. Chained (e.same.isn i) (next i) msgs) r.chained);
  small = (e.small, r.small);
  timer = λ nil. absurd (omega (arith, ap length nil));
}
  where
    next : t.next_seqno ≡ s.next_seqno + sequence_length m
    next = omega (arith, e.next, e.fits)

    flight : t.flight_numbers_length ≡ s.flight_numbers_length + sequence_length m
    flight = omega (arith, e.flight, e.fits)

pub Idle-Ran-trans :
    (window : ℕ) (s t : TcpSender) (msgs : List TcpSenderMessage) (u : TcpSender)
    → Idle s t
    → Ran window t msgs u
    → Ran window s msgs u
Idle-Ran-trans window s t msgs u i r = record {
  same = Same-trans i.same r.same;
  in_order = r.in_order ∙ ap (λ b. b.buffer) i.input;
  outstanding = r.outstanding ∙ ap (λ q. q ++ msgs) i.outstanding;
  next = omega (arith, r.next, i.next);
  flight = omega (arith, r.flight, i.flight);
  bound = omega (arith, r.bound, i.flight);
  chained = transport (λ j. Chained (i.same.isn j) (i.next j) msgs) r.chained;
  small = r.small;
  timer = λ e. r.timer e ∙ i.timer;
}
