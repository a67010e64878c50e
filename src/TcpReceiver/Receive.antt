-- ===== src/TcpReceiver/Receive.antt =====
-- `TCPReceiver::receive` of src/tcp_receiver.cc: which bytes of the peer's stream it takes.
use tiny_tcp_over_tun.Common.{
  ℕ, ◌+◌, ◌^◌, ◌<◌, ◌≡◌, length, true, false, not, arith, refl, ap, sym, ◌∙◌, subst, ◌&&◌, u64,
  sub64, add64, if◌then◌else◌,
}
use tiny_tcp_over_tun.Wrap32.{wrap, unwrap}
use tiny_tcp_over_tun.Wrap32.Unwrap.{IsWord, dist, unwrap-wrap}
use tiny_tcp_over_tun.ByteStream
use tiny_tcp_over_tun.Reassembler
use tiny_tcp_over_tun.Reassembler.Stored.{Inv}
use tiny_tcp_over_tun.Reassembler.Store.{Agrees}
use tiny_tcp_over_tun.Reassembler.Insert.{Inserted, insert-Inserted}
use tiny_tcp_over_tun.Messages.{TcpSenderMessage}
use tiny_tcp_over_tun.TcpReceiver.{TcpReceiver, see_syn, first_index, take_payload, receive, reset}

-- A message of the connection without a SYN: its payload starts at the stream index `index`, that
-- is at the absolute sequence number `index + 1`, less than 2^31 away from the next one expected.
pub record InStream (index : ℕ) (message : TcpSenderMessage) (r : TcpReceiver) : Type 0 where
  pub no_syn : message.syn ≡ false
  pub seqno : message.seqno ≡ wrap (index + 1) r.isn
  pub word : IsWord r.isn
  pub near : dist (index + 1) (r.reassembler.output.total_pushed + 1) < 2 ^ 31
  pub small : index + 1 < u64
  pub pushed_lt : r.reassembler.output.total_pushed + 1 < u64

-- The index that `receive` finds for such a message is the right one.
pub first_index-InStream :
    (index : ℕ) (message : TcpSenderMessage) (r : TcpReceiver)
    → InStream index message r
    → first_index message r ≡ index
unfolding first_index ByteStream.bytes_pushed
first_index-InStream index message r s =
    (λ i. if s.no_syn i then 0 else sub64 (unwrap (s.seqno i) r.isn (checkpoint i)) 1)
    ∙ ap (λ n. sub64 n 1)
        (unwrap-wrap (index + 1) r.isn (r.reassembler.output.total_pushed + 1) s.word s.small
          s.pushed_lt s.near)
    ∙ omega (arith, s.small)
  where
    checkpoint : add64 r.reassembler.output.total_pushed 1 ≡ r.reassembler.output.total_pushed + 1
    checkpoint = omega (arith, s.pushed_lt)

-- Without a SYN seen there is no stream to put a segment into: only a SYN or an RST does anything.
pub receive_before_syn :
    (message : TcpSenderMessage) (r : TcpReceiver)
    → r.syn ≡ false
    → message.syn ≡ false
    → message.rst ≡ false
    → receive message r ≡ r
unfolding receive
receive_before_syn message r h s t = ground arith

first_index_syn :
    (message : TcpSenderMessage) (r : TcpReceiver) → message.syn ≡ true → first_index message r ≡ 0
unfolding first_index
first_index_syn message r s = ground arith

-- The receiver once the message has gone to the reassembler.
receive_takes :
    (message : TcpSenderMessage) (r : TcpReceiver)
    → message.rst ≡ false
    → (see_syn message r).syn ≡ true
    → receive message r ≡ take_payload message (see_syn message r)
unfolding receive
receive_takes message r t s =
    let seen = see_syn message r in
    λ i. if t i then reset seen else if not (s i) then seen else take_payload message seen

see_syn_seen : (message : TcpSenderMessage) (r : TcpReceiver) → r.syn ≡ true → see_syn message r ≡ r
unfolding see_syn
see_syn_seen message r h = ground arith

see_syn_first :
    (message : TcpSenderMessage) (r : TcpReceiver)
    → r.syn ≡ false
    → message.syn ≡ true
    → see_syn message r ≡ record r { syn = true; isn = message.seqno }
unfolding see_syn
see_syn_first message r h s =
    λ i. if s i && not (h i) then record r { syn = true; isn = message.seqno } else r

-- What a message does to the stream: its payload is inserted at `index`.
pub record Taken (source : ℕ → ℕ) (index : ℕ) (message : TcpSenderMessage) (r r' : TcpReceiver)
    : Type 0 where
  pub syn : r'.syn ≡ true
  pub isn : r'.isn ≡ r.isn
  pub rst : r'.rst ≡ r.rst
  pub inserted : Inserted source index message.payload message.fin r.reassembler r'.reassembler

module _ (source : ℕ → ℕ) where
  take_payload-Taken :
      (index : ℕ) (message : TcpSenderMessage) (r : TcpReceiver)
      → r.syn ≡ true
      → first_index message r ≡ index
      → Inv source r.reassembler
      → Agrees source index message.payload
      → index + length message.payload < u64
      → Taken source index message r (take_payload message r)
  unfolding take_payload
  take_payload-Taken index message r h e v agrees small = record {
    syn = h;
    isn = refl;
    rst = refl;
    inserted =
        subst
          (λ k.
            Inserted source index message.payload message.fin r.reassembler
              (Reassembler.insert k message.payload message.fin r.reassembler))
          (sym e)
          (insert-Inserted source index message.payload message.fin r.reassembler v agrees small);
  }

  -- A message without SYN or RST of an established stream, less than 2^31 away from what is
  -- expected next, with bytes of the source that end below 2^64, delivers its payload to the
  -- reassembler at its true place in the stream, with its FIN as the end of the stream.
  pub receive-Taken :
      (index : ℕ) (message : TcpSenderMessage) (r : TcpReceiver)
      → r.syn ≡ true
      → message.rst ≡ false
      → InStream index message r
      → Inv source r.reassembler
      → Agrees source index message.payload
      → index + length message.payload < u64
      → Taken source index message r (receive message r)
  receive-Taken index message r h t s v agrees small =
      let seen = see_syn_seen message r h in
      rw (receive_takes message r t (ap (λ q. q.syn) seen ∙ h), seen)
        (take_payload-Taken index message r h (first_index-InStream index message r s) v agrees
          small)

  -- The first SYN, without RST, fixes the initial sequence number, and its payload, bytes of the
  -- source that are fewer than 2^64, goes to the start of the stream.
  pub receive_syn-Taken :
      (message : TcpSenderMessage) (r : TcpReceiver)
      → r.syn ≡ false
      → message.syn ≡ true
      → message.rst ≡ false
      → Inv source r.reassembler
      → Agrees source 0 message.payload
      → length message.payload < u64
      → Taken source 0 message (record r { isn = message.seqno }) (receive message r)
  receive_syn-Taken message r h s t v agrees small =
      let seen = see_syn_first message r h s in
      let r' : TcpReceiver = record r { syn = true; isn = message.seqno } in
      rw (receive_takes message r t (ap (λ q. q.syn) seen), seen)
        (retake (
          take_payload-Taken 0 message r' refl (first_index_syn message r' s) v agrees
            (omega arith)))
    where
      retake :
          {q : TcpReceiver}
          → Taken source 0 message (record r { syn = true; isn = message.seqno }) q
          → Taken source 0 message (record r { isn = message.seqno }) q
      retake k = record { syn = k.syn; isn = k.isn; rst = k.rst; inserted = k.inserted }

-- Once reset, always reset.
pub receive-rst_stays :
    (message : TcpSenderMessage) (r : TcpReceiver) → r.rst ≡ true → (receive message r).rst ≡ true
unfolding receive see_syn reset take_payload
receive-rst_stays message r h = ground arith
