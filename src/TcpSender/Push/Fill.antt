-- ===== src/TcpSender/Push/Fill.antt =====
-- The part of a round of `TCPSender::push` (src/tcp_sender.cc) that builds and sends a segment.
use tiny_tcp_over_tun.Common.{
  ◌≢◌, ℕ, ◌+◌, ◌≤◌, ◌<◌, ◌≡◌, List, [], ◌∷◌, ◌++◌, length, take, drop, Bool, true, false, not, ◌&&◌,
  ◌||◌, false≢true, ltb, ◌==◌, if◌then◌else◌, add64, sub64, u64, arith, refl, ap, sym, ◌∙◌,
  length-take, take-append-drop-length, drop-eq-nil, eq_cases, ne→==_false, inl, inr,
}
use tiny_tcp_over_tun.Wrap32.{wrap}
use tiny_tcp_over_tun.ByteStream
use tiny_tcp_over_tun.Messages.{TcpSenderMessage, sequence_length, flag, max_payload_size}
use tiny_tcp_over_tun.TcpSender.{TcpSender, sent, last, record_sent, emit, fill}
use tiny_tcp_over_tun.TcpSender.Push.{Same, Emits, Drained, Follows}
use tiny_tcp_over_tun.TcpSender.Push.Marks.{
  no_fin, fin_facts, parts, no_bytes, fin_sent_facts, marked, unmarked,
}

-- What `fill` hands to `emit`, in terms of the sender that the round began with.
record Filled (available : ℕ) (m : TcpSenderMessage) (s t : TcpSender) : Type 0 where
  same : Same s t
  input : t.input ≡ s.input
  outstanding : t.outstanding_seqno ≡ s.outstanding_seqno
  next : t.next_seqno ≡ s.next_seqno
  flight : t.flight_numbers_length ≡ s.flight_numbers_length
  payload : (n : ℕ) × (m.payload ≡ take n s.input.buffer)
  fits : sequence_length m ≤ available
  small : length m.payload ≤ max_payload_size
  seqno : m.seqno ≡ wrap s.next_seqno s.isn
  syn : m.syn ≡ not s.syn_sent
  fin : m.fin ≡ true → (s.input.closed ≡ true) × (length m.payload ≡ length s.input.buffer)
  nothing : m.fin ≡ false → sequence_length m ≡ 0 → (t ≡ record s { syn_sent = true }) × Drained t
  syn_sent : t.syn_sent ≡ true
  fin_sent : t.fin_sent ≡ (s.fin_sent || m.fin)
  pending : t.fast_retransmit_pending ≡ s.fast_retransmit_pending

-- What is left of the stream when the payload has been taken from its front.
buffer-taken :
    (p : List ℕ) (b : ByteStream.ByteStream)
    → (if ltb 0 (length p) then ByteStream.pop (length p) b else b).buffer
      ≡ drop (length p) b.buffer
unfolding ByteStream.pop
buffer-taken [] b = refl
buffer-taken (x ∷ p) b = ground arith

closed-taken :
    (p : List ℕ) (b : ByteStream.ByteStream)
    → (if ltb 0 (length p) then ByteStream.pop (length p) b else b).closed ≡ b.closed
unfolding ByteStream.pop
closed-taken p b = ground arith

record_sent-Emits :
    (available : ℕ) (m : TcpSenderMessage) (s t : TcpSender)
    → Filled available m s t
    → 0 < sequence_length m
    → Emits available m s (record_sent m t)
unfolding record_sent
record_sent-Emits available m s t f h = record {
  same = record {
    isn = f.same.isn;
    window_size = f.same.window_size;
    cwnd = f.same.cwnd;
    ackno = f.same.ackno;
    closed = closed-taken m.payload t.input ∙ f.same.closed;
    elapsed = f.same.elapsed;
    rto = f.same.rto;
    initial_rto = f.same.initial_rto;
    ssthresh = f.same.ssthresh;
    retransmissions = f.same.retransmissions;
    duplicates = f.same.duplicates;
  };
  not_empty = h;
  fits = f.fits;
  small = f.small;
  seqno = f.seqno;
  in_order =
      ap (◌++◌ m.payload) rest
      ∙ (λ i. f.payload.1 i ++ drop (length (f.payload.1 i)) s.input.buffer)
      ∙ take-append-drop-length f.payload.0 s.input.buffer;
  outstanding = ap (λ q. q ++ m ∷ []) f.outstanding;
  next = ap (λ n. add64 n (sequence_length m)) f.next;
  flight = ap (λ n. add64 n (sequence_length m)) f.flight;
  syn = f.syn;
  fin = λ e.
      let (closed, all) = f.fin e in
      (closed, rest ∙ drop-eq-nil (length m.payload) s.input.buffer (omega arith));
  timer = refl;
  syn_sent = f.syn_sent;
  fin_sent = f.fin_sent;
  pending = f.pending;
}
  where
    rest :
        (if ltb 0 (length m.payload)
          then ByteStream.pop (length m.payload) t.input
          else t.input).buffer
        ≡ drop (length m.payload) s.input.buffer
    rest = buffer-taken m.payload t.input ∙ ap (λ b. drop (length m.payload) b.buffer) f.input

emit-Follows :
    (available : ℕ) (m : TcpSenderMessage) (s t : TcpSender)
    → Filled available m s t
    → Follows available s (emit m t)
unfolding emit
emit-Follows available m s t f = elim (eq_cases (sequence_length m) 0) [
  | inl e ↦ let (same, drained) = f.nothing (no_fin m e) e in rw e (same, inr drained)
  | inr ne ↦ rw (ne→==_false (sequence_length m) 0 ne) (either ne m.fin refl)
]
  where
    emits : sequence_length m ≢ 0 → Emits available m s (record_sent m t)
    emits ne = record_sent-Emits available m s t f (omega arith)

    either :
        sequence_length m ≢ 0
        → (b : Bool) → m.fin ≡ b
        → Follows available s (if b then last m (record_sent m t) else sent m (record_sent m t))
    either ne true e = (emits ne, e)
    either ne false e = emits ne

pub fill-Follows :
    (available after n : ℕ) (m : TcpSenderMessage) (s : TcpSender)
    → m.seqno ≡ wrap s.next_seqno s.isn
    → m.syn ≡ not s.syn_sent
    → flag m.syn + after ≤ available
    → n ≤ after
    → available < u64
    → n ≤ max_payload_size
    → n ≤ length s.input.buffer
    → (m.syn ≡ false → n ≡ 0 → (length s.input.buffer ≡ 0) × (0 < after))
    → Follows available s (fill n after m (record s { syn_sent = true }))
unfolding fill ByteStream.peek ByteStream.is_closed
fill-Follows available after n m s eseq esyn hs hn ha h1000 hb hz =
    filled
      (s.input.closed && not s.fin_sent && ltb 0 (sub64 after n) && (n == length s.input.buffer))
      refl
  where
    bytes : List ℕ
    bytes = take n s.input.buffer

    size : length bytes ≤ n
    size = omega (arith, length-take n s.input.buffer)

    whole : n ≡ length s.input.buffer → length bytes ≡ length s.input.buffer
    whole e = omega (arith, length-take n s.input.buffer)

    -- Nothing to send
    drained :
        (s.input.closed && not s.fin_sent && ltb 0 (sub64 after n) && (n == length s.input.buffer))
          ≡ false
        → (m.syn ≡ false) × (length bytes ≡ 0)
        → Drained (record s { syn_sent = true })
    drained e (no_syn, none_left) =
        let n_is : n ≡ 0 = omega (arith, length-take n s.input.buffer) in
        let (gone, room) = hz no_syn n_is in
        record {
          empty = no_bytes s.input.buffer gone;
          fin = λ closed.
              fin_sent_facts s.input.closed s.fin_sent after n (length s.input.buffer) closed n_is
                gone room (omega arith) e;
        }

    same : (b : Bool) → Same s (record s { syn_sent = true; fin_sent = b })
    same b = record {
      isn = refl;
      window_size = refl;
      cwnd = refl;
      ackno = refl;
      closed = refl;
      elapsed = refl;
      rto = refl;
      initial_rto = refl;
      ssthresh = refl;
      retransmissions = refl;
      duplicates = refl;
    }

    filled :
        (b : Bool)
        → (s.input.closed
            && not s.fin_sent
            && ltb 0 (sub64 after n)
            && (n == length s.input.buffer))
          ≡ b
        → Follows available s (
            emit
              (record m { payload = bytes; fin = b })
              (if b
                then record s { syn_sent = true; fin_sent = true }
                else record s { syn_sent = true }))
    filled true e =
        let (closed, room, all) =
          fin_facts s.input.closed s.fin_sent after n (length s.input.buffer) hn (omega arith) e in
        emit-Follows available (record m { payload = bytes; fin = true }) s
          (record s { syn_sent = true; fin_sent = true })
          (record {
            same = same true;
            input = refl;
            outstanding = refl;
            next = refl;
            flight = refl;
            payload = (n, refl);
            fits = unfold sequence_length in omega (arith, size);
            small = omega (arith, size);
            seqno = eseq;
            syn = esyn;
            fin = λ _. (closed, whole all);
            nothing = λ f z. absurd (false≢true (sym f));
            syn_sent = refl;
            fin_sent = marked s.fin_sent;
            pending = refl;
          })
    filled false e =
        emit-Follows available (record m { payload = bytes; fin = false }) s
          (record s { syn_sent = true })
          (record {
            same = same s.fin_sent;
            input = refl;
            outstanding = refl;
            next = refl;
            flight = refl;
            payload = (n, refl);
            fits = unfold sequence_length in omega (arith, size);
            small = omega (arith, size);
            seqno = eseq;
            syn = esyn;
            fin = λ f. absurd (false≢true f);
            nothing =
                λ _ z. (refl, drained e (unfold sequence_length in parts m.syn (length bytes) z));
            syn_sent = refl;
            fin_sent = unmarked s.fin_sent;
            pending = refl;
          })
