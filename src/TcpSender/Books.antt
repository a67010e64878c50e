-- ===== src/TcpSender/Books.antt =====
-- The queue of outstanding segments of src/tcp_sender.cc: its books, and what an acknowledgment
-- removes from it.
pub mod Receive
use tiny_tcp_over_tun.Common.{
  ℕ, zero, suc, ◌+◌, ◌-◌, ◌^◌, ◌≤◌, ◌<◌, ◌≡◌, List, [], ◌∷◌, ◌++◌, Bool, true, false, leb,
  if◌then◌else◌, add64, sub64, u64, arith, refl, sym, ap, ◌∙◌, inl, inr, lt_cases, le→leb,
  lt→leb_false, transport, append-nil,
}
use tiny_tcp_over_tun.Wrap32.{Wrap32, wrap, unwrap}
use tiny_tcp_over_tun.Wrap32.Unwrap.{IsWord, unwrap-wrap}
use tiny_tcp_over_tun.Messages.{TcpSenderMessage, sequence_length}
use tiny_tcp_over_tun.TcpSender.{TcpSender}
use tiny_tcp_over_tun.TcpSender.Acks.{pop_acked}
use tiny_tcp_over_tun.TcpSender.Push.Ran.{Chained, lengths}

-- The books of a sender: the outstanding segments are chained, end at `next_seqno`, and are
-- what `flight_numbers_length` counts, at most a full 16-bit window of them.
pub record Books (s : TcpSender) : Type 0 where
  pub word : IsWord s.isn
  pub una : ℕ
  pub chained : Chained s.isn una s.outstanding_seqno
  pub total : una + lengths s.outstanding_seqno ≡ s.next_seqno
  pub flight : s.flight_numbers_length ≡ lengths s.outstanding_seqno
  pub bound : s.flight_numbers_length ≤ 65535
  pub acked : una ≤ s.ackno
  pub next : s.next_seqno < u64

-- What is left after an acknowledgment up to `a`, a queue that starts at `n`, begins with a segment
-- that `a` does not cover.
abbrev pub Unacked : ℕ → ℕ → List TcpSenderMessage → Type 0
Unacked a n [] = Unit {0}
Unacked a n (m ∷ rest) = a < n + sequence_length m

-- Every segment of a queue that starts at `n` ends at `a` or before.
abbrev pub Acked : ℕ → ℕ → List TcpSenderMessage → Type 0
Acked a n [] = Unit {0}
Acked a n (m ∷ msgs) = (n + sequence_length m ≤ a) × Acked a (n + sequence_length m) msgs

plus_zero : (n : ℕ) → n ≡ n + 0
plus_zero n = omega arith

further : (a b c : ℕ) → (a + b) + c ≡ a + (b + c)
further a b c = omega arith

pub record Popped (a una : ℕ) (msgs : List TcpSenderMessage) (s s' : TcpSender) : Type 0 where
  pub acked : List TcpSenderMessage
  pub rest : List TcpSenderMessage
  pub split : msgs ≡ acked ++ rest
  pub outstanding : s'.outstanding_seqno ≡ rest
  pub flight : s'.flight_numbers_length + lengths acked ≡ s.flight_numbers_length
  pub kept : s' ≡ record s {
    outstanding_seqno = s'.outstanding_seqno;
    flight_numbers_length = s'.flight_numbers_length;
  }
  pub all : Acked a una acked
  pub unacked : Unacked a (una + lengths acked) rest
  pub chained : Chained s.isn (una + lengths acked) rest
  pub sum : lengths msgs ≡ lengths acked + lengths rest

-- For a queue of chained segments that ends at `next_seqno`, has less than 2^31 sequence numbers
-- and is counted in flight, an acknowledgment removes the segments that it covers wholly from the
-- front, stops at the first one that it does not, takes their lengths off the flight and changes
-- nothing else.
pub pop_acked-Popped :
    (a una : ℕ) (msgs : List TcpSenderMessage) (s : TcpSender)
    → IsWord s.isn
    → Chained s.isn una msgs
    → una + lengths msgs ≡ s.next_seqno
    → s.next_seqno < u64
    → lengths msgs < 2 ^ 31
    → lengths msgs ≤ s.flight_numbers_length
    → s.flight_numbers_length < u64
    → Popped a una msgs s (pop_acked a msgs s)
unfolding pop_acked
pop_acked-Popped a una [] s hw c e hn hl hf hu = record {
  acked = [];
  rest = [];
  split = refl;
  outstanding = refl;
  flight = omega arith;
  kept = refl;
  all = tt;
  unacked = tt;
  chained = tt;
  sum = refl;
}
pop_acked-Popped a una (m ∷ msgs) s hw (eq, pos, c) e hn hl hf hu =
    transport
      (λ i. Popped a una (m ∷ msgs) s (
        if leb (add64 (sym at_una i) (sequence_length m)) a
        then pop_acked a msgs t
        else record s { outstanding_seqno = m ∷ msgs }))
      (elim (lt_cases a (add64 una (sequence_length m))) [
        | inl lt ↦ rw (lt→leb_false (add64 una (sequence_length m)) a lt) (record {
          acked = [];
          rest = m ∷ msgs;
          split = refl;
          outstanding = refl;
          flight = omega arith;
          kept = refl;
          all = tt;
          unacked = omega arith;
          chained = transport (λ i. Chained s.isn (plus_zero una i) (m ∷ msgs)) (eq, pos, c);
          sum = omega arith;
        })
        | inr le ↦ rw (le→leb (add64 una (sequence_length m)) a le) (
            cons (omega arith) (pop_acked a msgs t) (
              pop_acked-Popped a (una + sequence_length m) msgs t hw c (omega arith) hn
                (omega arith) (omega arith) (omega arith)))
      ])
  where
    at_una : unwrap m.seqno s.isn s.next_seqno ≡ una
    at_una =
        (λ i. unwrap (eq i) s.isn s.next_seqno)
        ∙ unwrap-wrap una s.isn s.next_seqno hw (omega arith) hn (omega arith)

    t : TcpSender
    t = record s { flight_numbers_length = sub64 s.flight_numbers_length (sequence_length m) }

    cons :
        una + sequence_length m ≤ a
        → (r : TcpSender) → Popped a (una + sequence_length m) msgs t r
        → Popped a una (m ∷ msgs) s r
    cons le r p = record {
      acked = m ∷ p.acked;
      rest = p.rest;
      split = ap (◌∷◌ m) p.split;
      outstanding = p.outstanding;
      flight = omega (arith, p.flight);
      kept = p.kept;
      all = (le, p.all);
      unacked =
          transport (λ i. Unacked a (further una (sequence_length m) (lengths p.acked) i) p.rest)
            p.unacked;
      chained =
          transport
            (λ i. Chained s.isn (further una (sequence_length m) (lengths p.acked) i) p.rest)
            p.chained;
      sum = omega (arith, p.sum);
    }
