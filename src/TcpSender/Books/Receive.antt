-- ===== src/TcpSender/Books/Receive.antt =====
-- `TCPSender::receive` of src/tcp_sender.cc: which segments an acknowledgment takes off the queue.
use tiny_tcp_over_tun.Common.{
  ℕ, ◌+◌, ◌≤◌, ◌<◌, ◌≡◌, List, [], ◌∷◌, ◌++◌, Bool, true, false, ltb, ◌==◌, if◌then◌else◌, arith,
  refl, sym, ap, ◌∙◌, inl, inr, lt_cases, lt→ltb, le→ltb_false, transport, subst, max, none, some,
  Option,
}
use tiny_tcp_over_tun.Wrap32.{Wrap32, unwrap}
use tiny_tcp_over_tun.Wrap32.Unwrap.{IsWord}
use tiny_tcp_over_tun.ByteStream
use tiny_tcp_over_tun.Messages.{TcpSenderMessage, TcpReceiverMessage, sequence_length}
use tiny_tcp_over_tun.TcpSender.{TcpSender}
use tiny_tcp_over_tun.TcpSender.Acks.{
  pop_acked, new_ack, duplicate_ack, settle_timer, receive_ackno, receive,
}
use tiny_tcp_over_tun.TcpSender.Push.Ran.{Chained, lengths}
use tiny_tcp_over_tun.TcpSender.Books.{Books, Acked, Unacked, Popped, pop_acked-Popped}

-- The books are the same, but for an `ackno` that may have moved on.
record Kept (s t : TcpSender) : Type 0 where
  isn : t.isn ≡ s.isn
  next : t.next_seqno ≡ s.next_seqno
  outstanding : t.outstanding_seqno ≡ s.outstanding_seqno
  flight : t.flight_numbers_length ≡ s.flight_numbers_length
  ackno : s.ackno ≤ t.ackno

kept :
    {s t : TcpSender}
    → t.isn ≡ s.isn
    → t.next_seqno ≡ s.next_seqno
    → t.outstanding_seqno ≡ s.outstanding_seqno
    → t.flight_numbers_length ≡ s.flight_numbers_length
    → s.ackno ≤ t.ackno
    → Kept s t
kept isn next outstanding flight ackno = record {
  isn = isn;
  next = next;
  outstanding = outstanding;
  flight = flight;
  ackno = ackno;
}

self : (s : TcpSender) → Kept s s
self s = kept refl refl refl refl (omega arith)

new_ack-Kept : (a : ℕ) (s : TcpSender) → s.ackno < a → Kept s (new_ack a s)
unfolding new_ack
new_ack-Kept a s h = kept refl refl refl refl (omega arith)

duplicate_ack-Kept : (s : TcpSender) → Kept s (duplicate_ack s)
unfolding duplicate_ack
duplicate_ack-Kept s =
    kept (ground arith) (ground arith) (ground arith) (ground arith) (ground arith)

settle_timer-Kept : (a : ℕ) (s : TcpSender) → Kept s (settle_timer a s)
unfolding settle_timer
settle_timer-Kept a s =
    kept (ground arith) (ground arith) (ground arith) (ground arith) (ground arith)

-- What `receive` counts before it looks at the queue.
counted-Kept :
    (a : ℕ) (s : TcpSender)
    → Kept s (if ltb s.ackno a then new_ack a s else if a == s.ackno then duplicate_ack s else s)
counted-Kept a s = elim (lt_cases s.ackno a) [
  | inl lt ↦ rw (lt→ltb s.ackno a lt) (new_ack-Kept a s lt)
  | inr le ↦ rw (le→ltb_false s.ackno a le) (either (a == s.ackno))
]
  where
    either : (b : Bool) → Kept s (if b then duplicate_ack s else s)
    either true = duplicate_ack-Kept s
    either false = self s

counted_reach :
    (a : ℕ) (s : TcpSender)
    → a ≤ (if ltb s.ackno a then new_ack a s else if a == s.ackno then duplicate_ack s else s).ackno
unfolding new_ack
counted_reach a s = elim (lt_cases s.ackno a) [
  | inl lt ↦ rw (lt→ltb s.ackno a lt) (omega arith)
  | inr le ↦ omega (arith, (counted-Kept a s).ackno)
]

-- What `receive_ackno` leaves, for an acknowledgment up to `a`.
pub record Removed (a una : ℕ) (s s' : TcpSender) : Type 0 where
  pub acked : List TcpSenderMessage
  pub split : s.outstanding_seqno ≡ acked ++ s'.outstanding_seqno
  pub all : Acked a una acked
  pub unacked : Unacked a (una + lengths acked) s'.outstanding_seqno
  pub chained : Chained s'.isn (una + lengths acked) s'.outstanding_seqno
  pub sum : lengths s.outstanding_seqno ≡ lengths acked + lengths s'.outstanding_seqno
  pub isn : s'.isn ≡ s.isn
  pub next : s'.next_seqno ≡ s.next_seqno
  pub flight : s'.flight_numbers_length ≡ lengths s'.outstanding_seqno
  pub ackno : s.ackno ≤ s'.ackno
  pub reached : a ≤ s'.ackno

-- An acknowledgment of a sequence number that has not been sent changes nothing.
pub receive_ackno_beyond : (a : ℕ) (s : TcpSender) → s.next_seqno < a → receive_ackno a s ≡ s
unfolding receive_ackno
receive_ackno_beyond a s h = rw (lt→ltb s.next_seqno a h)

-- Of a sender whose books are right, an acknowledgment of a number that has been sent takes off
-- the front of the queue exactly the segments that it covers wholly: the first one left ends after
-- it. What is left is still chained and is what counts as in flight, and the highest
-- acknowledgment has reached it.
pub receive_ackno-Removed :
    (a : ℕ) (s : TcpSender) (b : Books s) → a ≤ s.next_seqno → Removed a b.una s (receive_ackno a s)
unfolding receive_ackno
receive_ackno-Removed a s b h =
    rw (le→ltb_false s.next_seqno a h) (removed _ (counted-Kept a s) (counted_reach a s))
  where
    removed :
        (t : TcpSender)
        → Kept s t
        → a ≤ t.ackno
        → Removed a b.una s (settle_timer a (pop_acked a t.outstanding_seqno t))
    removed t k r = record {
      acked = p.acked;
      split = sym k.outstanding ∙ p.split ∙ ap (◌++◌ p.acked) (sym left);
      all = p.all;
      unacked = transport (λ i. Unacked a (b.una + lengths p.acked) (sym left i)) p.unacked;
      chained =
          transport (λ i. Chained (sym isn i) (b.una + lengths p.acked) (sym left i)) p.chained;
      sum =
          sym (ap lengths k.outstanding) ∙ p.sum ∙ ap (λ q. lengths p.acked + lengths q) (sym left);
      isn = isn ∙ k.isn;
      next = q.next ∙ ap (λ u. u.next_seqno) p.kept ∙ k.next;
      flight = omega (
        arith,
        q.flight,
        p.flight,
        p.sum,
        k.flight,
        b.flight,
        ap lengths k.outstanding,
        ap lengths left,
      );
      ackno = omega (arith, k.ackno, later);
      reached = omega (arith, later);
    }
      where
        p : Popped a b.una t.outstanding_seqno t (pop_acked a t.outstanding_seqno t)
        p =
            pop_acked-Popped a b.una t.outstanding_seqno t
              (transport (λ i. IsWord (sym k.isn i)) b.word)
              (transport (λ i. Chained (sym k.isn i) b.una (sym k.outstanding i)) b.chained)
              (omega (arith, b.total, k.next, ap lengths k.outstanding))
              (omega (arith, b.next, k.next))
              (omega (arith, b.bound, b.flight, ap lengths k.outstanding))
              (omega (arith, b.flight, k.flight, ap lengths k.outstanding))
              (omega (arith, b.bound, k.flight))

        q :
            Kept
              (pop_acked a t.outstanding_seqno t)
              (settle_timer a (pop_acked a t.outstanding_seqno t))
        q = settle_timer-Kept a (pop_acked a t.outstanding_seqno t)

        left : (settle_timer a (pop_acked a t.outstanding_seqno t)).outstanding_seqno ≡ p.rest
        left = q.outstanding ∙ p.outstanding

        isn : (settle_timer a (pop_acked a t.outstanding_seqno t)).isn ≡ t.isn
        isn = q.isn ∙ ap (λ u. u.isn) p.kept

        later : t.ackno ≤ (settle_timer a (pop_acked a t.outstanding_seqno t)).ackno
        later = omega (arith, q.ackno, ap (λ u. u.ackno) p.kept)

Acked-bound : (a n : ℕ) (msgs : List TcpSenderMessage) → Acked a n msgs → n + lengths msgs ≤ max a n
Acked-bound a n [] h = omega arith
Acked-bound a n (m ∷ msgs) (h, rest) =
    omega (arith, Acked-bound a (n + sequence_length m) msgs rest)

-- `receive` keeps the books of a sender whose books are right, whatever the message says.
pub receive-Books : (msg : TcpReceiverMessage) (s : TcpSender) → Books s → Books (receive msg s)
unfolding receive
receive-Books msg s b = either msg.rst msg.ackno
  where
    windowed :
        (input : ByteStream.ByteStream)
        → Books (record s { input = input; window_size = msg.window_size })
    windowed input = record {
      word = b.word;
      una = b.una;
      chained = b.chained;
      total = b.total;
      flight = b.flight;
      bound = b.bound;
      acked = b.acked;
      next = b.next;
    }

    ends : (t : TcpSender) → Books t → (a : ℕ) → Books (receive_ackno a t)
    ends t b a = elim (lt_cases t.next_seqno a) [
      | inl lt ↦ subst Books (sym (receive_ackno_beyond a t lt)) b
      | inr le ↦
          let r = receive_ackno-Removed a t b le in
          record {
            word = transport (λ i. IsWord (sym r.isn i)) b.word;
            una = b.una + lengths r.acked;
            chained = r.chained;
            total = omega (arith, r.sum, r.next, b.total);
            flight = r.flight;
            bound = omega (arith, r.flight, r.sum, b.flight, b.bound);
            acked = omega (arith, Acked-bound a b.una r.acked r.all, r.reached, r.ackno, b.acked);
            next = omega (arith, r.next, b.next);
          }
    ]

    either :
        (rst : Bool) (ackno : Option Wrap32)
        → Books (
            let reset = if rst then record s { input = ByteStream.set_error s.input } else s in
            let windowed : TcpSender = record reset { window_size = msg.window_size } in
            elim ackno [
              | none ↦ windowed
              | some n ↦ receive_ackno (unwrap n windowed.isn windowed.next_seqno) windowed
            ])
    either true none = windowed (ByteStream.set_error s.input)
    either false none = windowed s.input
    either true (some n) = ends _ (windowed (ByteStream.set_error s.input)) _
    either false (some n) = ends _ (windowed s.input) _
