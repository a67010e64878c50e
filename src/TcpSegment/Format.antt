-- ===== src/TcpSegment/Format.antt =====
-- TCP segments on the wire (util/tcp_segment.cc): the fields of the header.
use tiny_tcp_over_tun.Common.{
  ℕ, ◌+◌, ◌^◌, ◌≤◌, ◌<◌, ◌≡◌, List, ◌++◌, length, Bool, true, false, not, ◌||◌, Option, none, some,
  arith, refl, ap, ◌∙◌, if◌then◌else◌, AllBytes,
}
use tiny_tcp_over_tun.Ref.{owned, get}
use tiny_tcp_over_tun.Wrap32.{Wrap32}
use tiny_tcp_over_tun.TcpPeer.{TcpMessage}
use tiny_tcp_over_tun.Parser.{Parser, Parse, ◌>>◌}
use tiny_tcp_over_tun.Parser.Serializer.{Serializer, bytes_of}
use tiny_tcp_over_tun.Parser.Holds.{Holds}
use tiny_tcp_over_tun.Parser.Gives.{remove_prefix-Gives}
use tiny_tcp_over_tun.Parser.Ends.{
  Ends, pure-Ends, and_end, end_then, concatenate_all_remaining-Ends,
}
use tiny_tcp_over_tun.Parser.Integers.{octet-Gives, short-Gives, word-Gives}
use tiny_tcp_over_tun.Parser.Written.{Appends, append_then, integer-Appends, buffer-Writes}
use tiny_tcp_over_tun.TcpSegment.{
  TcpSegment, has_bit, with_fields, with_payload, parse_rest, parse_fields, flags_of, ackno_or_zero,
  serialize,
}

-- The header before its checksum, in front of other bytes.
abbrev pub front_bytes : TcpSegment → List ℕ → List ℕ
front_bytes seg rest =
    bytes_of 2 seg.udinfo.src_port
    ++ (bytes_of 2 seg.udinfo.dst_port
        ++ (bytes_of 4 seg.message.sender.seqno.raw_value
            ++ (bytes_of 4 (ackno_or_zero seg.message.receiver.ackno)
                ++ (bytes_of 1 80
                    ++ (bytes_of 1 (flags_of seg.message)
                        ++ (bytes_of 2 seg.message.receiver.window_size ++ rest))))))

-- The bytes of a segment.
abbrev pub segment_bytes : TcpSegment → List ℕ
segment_bytes seg =
    front_bytes seg (bytes_of 2 seg.udinfo.cksum ++ (bytes_of 2 0 ++ seg.message.sender.payload))

-- The fields are in the range of their types, and the segment fits into a datagram.
pub record IsSegment (seg : TcpSegment) : Type 0 where
  pub src_port : seg.udinfo.src_port < 2 ^ 16
  pub dst_port : seg.udinfo.dst_port < 2 ^ 16
  pub cksum : seg.udinfo.cksum < 2 ^ 16
  pub seqno : seg.message.sender.seqno.raw_value < 2 ^ 32
  pub ackno : ackno_or_zero seg.message.receiver.ackno < 2 ^ 32
  pub window_size : seg.message.receiver.window_size < 2 ^ 16
  pub payload : AllBytes seg.message.sender.payload
  pub fits : length seg.message.sender.payload ≤ 65495

-- There is just one RST flag in a segment.
abbrev pub one_rst : TcpMessage → TcpMessage
one_rst m = record {
  sender = record m.sender { rst = m.sender.rst || m.receiver.rst };
  receiver = record m.receiver { rst = m.sender.rst || m.receiver.rst };
}

abbrev pub normal : TcpSegment → TcpSegment
normal seg = record seg { message = one_rst seg.message }

flags_range : (m : TcpMessage) → flags_of m < 2 ^ 8
unfolding flags_of
flags_range m = either m.receiver.ackno
  where
    either :
        (o : Option Wrap32)
        → elim o [ none ↦ 0 | some w ↦ 0x10 ]
            + (if m.sender.rst || m.receiver.rst then 4 else 0)
            + (if m.sender.syn then 2 else 0)
            + (if m.sender.fin then 1 else 0)
          < 2 ^ 8
    either none = ground arith
    either (some w) = ground arith

-- The four flags of a header come apart again.
abbrev bits_of : Bool → Bool → Bool → Bool → ℕ
bits_of ack rst syn fin =
    (if ack then 0x10 else 0)
    + (if rst then 4 else 0)
    + (if syn then 2 else 0)
    + (if fin then 1 else 0)

bits :
    (ack rst syn fin : Bool)
    → (has_bit 4 (bits_of ack rst syn fin) ≡ ack)
      × (has_bit 2 (bits_of ack rst syn fin) ≡ rst)
      × (has_bit 1 (bits_of ack rst syn fin) ≡ syn)
      × (has_bit 0 (bits_of ack rst syn fin) ≡ fin)
unfolding has_bit
bits false false false false = (refl, refl, refl, refl)
bits false false false true = (refl, refl, refl, refl)
bits false false true false = (refl, refl, refl, refl)
bits false false true true = (refl, refl, refl, refl)
bits false true false false = (refl, refl, refl, refl)
bits false true false true = (refl, refl, refl, refl)
bits false true true false = (refl, refl, refl, refl)
bits false true true true = (refl, refl, refl, refl)
bits true false false false = (refl, refl, refl, refl)
bits true false false true = (refl, refl, refl, refl)
bits true false true false = (refl, refl, refl, refl)
bits true false true true = (refl, refl, refl, refl)
bits true true false false = (refl, refl, refl, refl)
bits true true false true = (refl, refl, refl, refl)
bits true true true false = (refl, refl, refl, refl)
bits true true true true = (refl, refl, refl, refl)

-- What the fields of a segment make of any other segment, and with its payload.
abbrev fielded : TcpSegment → TcpSegment → TcpSegment
fielded seg old =
    with_fields seg.udinfo.src_port seg.udinfo.dst_port seg.message.sender.seqno.raw_value
      (ackno_or_zero seg.message.receiver.ackno) (flags_of seg.message)
      seg.message.receiver.window_size seg.udinfo.cksum old

abbrev rebuilt : TcpSegment → TcpSegment → TcpSegment
rebuilt seg old = with_payload (fielded seg old) seg.message.sender.payload

abbrev flags_at : Option Wrap32 → Bool → Bool → Bool → ℕ
flags_at o rst syn fin =
    elim o [ none ↦ 0 | some w ↦ 0x10 ]
    + (if rst then 4 else 0)
    + (if syn then 2 else 0)
    + (if fin then 1 else 0)

parts :
    (o : Option Wrap32) (rst syn fin : Bool)
    → ((if not (has_bit 4 (flags_at o rst syn fin))
          then none
          else some (record { raw_value = ackno_or_zero o }))
        ≡ o)
      × (has_bit 2 (flags_at o rst syn fin) ≡ rst)
      × (has_bit 1 (flags_at o rst syn fin) ≡ syn)
      × (has_bit 0 (flags_at o rst syn fin) ≡ fin)
unfolding ackno_or_zero
parts none rst syn fin =
    let (a, r, s, f) = bits false rst syn fin in
    (ap (λ b. if not b then none else some (record { raw_value = 0 })) a, r, s, f)
parts (some w) rst syn fin =
    let (a, r, s, f) = bits true rst syn fin in
    (ap (λ b. if not b then none else some (record { raw_value = w.raw_value })) a, r, s, f)

rebuilt-eq : (seg old : TcpSegment) → rebuilt seg old ≡ normal seg
unfolding with_fields flags_of
rebuilt-eq seg old =
    let m = seg.message in
    let (ackno, rst, syn, fin) =
      parts m.receiver.ackno (m.sender.rst || m.receiver.rst) m.sender.syn m.sender.fin in
    λ i. record seg {
      message = record {
        sender = record seg.message.sender { syn = syn i; fin = fin i; rst = rst i };
        receiver = record seg.message.receiver { ackno = ackno i; rst = rst i };
      };
    }

parse_rest-Ends :
    (seg : TcpSegment) (payload : List ℕ) (p : Parser)
    → Holds p payload
    → Ends (parse_rest 5 seg) p (λ r. r ≡ with_payload seg payload)
unfolding parse_rest ◌>>◌
parse_rest-Ends seg payload p k =
    and_end _ _ (remove_prefix-Gives 0 p payload (omega arith) k) (λ q l.
      end_then _ _ (concatenate_all_remaining-Ends q payload l)
        (λ all r e fine. pure-Ends (with_payload seg all) r fine (ap (with_payload seg) e)))

pub parse_fields-Ends :
    (seg old : TcpSegment) (p : Parser)
    → IsSegment seg
    → Holds p (segment_bytes seg)
    → Ends (parse_fields old) p (λ r. r ≡ normal seg)
unfolding parse_fields
parse_fields-Ends seg old p ok k =
    and_end _ _ (short-Gives seg.udinfo.src_port _ _ p ok.src_port k) (λ p1 k1.
      and_end _ _ (short-Gives seg.udinfo.dst_port _ _ p1 ok.dst_port k1) (λ p2 k2.
        and_end _ _ (word-Gives seg.message.sender.seqno.raw_value _ _ p2 ok.seqno k2) (λ p3 k3.
          and_end _ _ (word-Gives (ackno_or_zero seg.message.receiver.ackno) _ _ p3 ok.ackno k3)
            (λ p4 k4. and_end _ _ (octet-Gives 80 _ _ p4 (omega arith) k4) (λ p5 k5.
              and_end _ _ (octet-Gives (flags_of seg.message) _ _ p5 (flags_range seg.message) k5)
                (λ p6 k6.
                  and_end _ _
                    (short-Gives seg.message.receiver.window_size _ _ p6 ok.window_size k6)
                    (λ p7 k7.
                      and_end _ _ (short-Gives seg.udinfo.cksum _ _ p7 ok.cksum k7) (λ p8 k8.
                        and_end _ _ (short-Gives 0 0 _ p8 (omega arith) k8) (λ q k9. changed (
                          parse_rest-Ends (fielded seg old) seg.message.sender.payload q
                            k9))))))))))
  where
    changed :
        {m : Parse TcpSegment} {q : Parser}
        → Ends m q (λ r. r ≡ rebuilt seg old)
        → Ends m q (λ r. r ≡ normal seg)
    changed e = record {
      value = e.value;
      after = e.after;
      result = e.result;
      fine = e.fine;
      holds = e.holds ∙ rebuilt-eq seg old;
    }

pub serialize-Appends :
    (seg : TcpSegment) (s : Serializer) → Appends s (serialize seg s) (segment_bytes seg)
unfolding serialize get
serialize-Appends seg s =
    append_then _ _ _ (bytes_of 2 seg.udinfo.src_port) _ (integer-Appends 2 seg.udinfo.src_port s) (
      append_then _ _ _ (bytes_of 2 seg.udinfo.dst_port) _ (integer-Appends 2 seg.udinfo.dst_port _)
        (append_then _ _ _ (bytes_of 4 seg.message.sender.seqno.raw_value) _
          (integer-Appends 4 seg.message.sender.seqno.raw_value _)
          (append_then _ _ _ (bytes_of 4 (ackno_or_zero seg.message.receiver.ackno)) _
            (integer-Appends 4 (ackno_or_zero seg.message.receiver.ackno) _)
            (append_then _ _ _ (bytes_of 1 80) _ (integer-Appends 1 80 _) (
              append_then _ _ _ (bytes_of 1 (flags_of seg.message)) _
                (integer-Appends 1 (flags_of seg.message) _)
                (append_then _ _ _ (bytes_of 2 seg.message.receiver.window_size) _
                  (integer-Appends 2 seg.message.receiver.window_size _)
                  (append_then _ _ _ (bytes_of 2 seg.udinfo.cksum) _
                    (integer-Appends 2 seg.udinfo.cksum _)
                    (append_then _ _ _ (bytes_of 2 0) _ (integer-Appends 2 0 _) (λ before w.
                      buffer-Writes (owned seg.message.sender.payload) _ before w)))))))))
