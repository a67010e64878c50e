-- ===== src/TcpOverIp/Wrapped.antt =====
-- `wrap_tcp_in_ip` (util/tcp_over_ip.cc): the datagram that it makes, and the segment in it.
use tiny_tcp_over_tun.Common.{
  ℕ, ◌+◌, ◌^◌, ◌≤◌, ◌<◌, ◌≡◌, List, [], length, map, true, some, arith, refl, ap, ◌∙◌, AllBytes,
}
use tiny_tcp_over_tun.Ref.{Ref, get}
use tiny_tcp_over_tun.Address.{Address, ipv4_numeric}
use tiny_tcp_over_tun.Checksum
use tiny_tcp_over_tun.Checksum.Verify.{value_range}
use tiny_tcp_over_tun.Parser.Serializer
use tiny_tcp_over_tun.Parser.Serializer.{new, finish}
use tiny_tcp_over_tun.Parser.Content.{concat}
use tiny_tcp_over_tun.Parser.Holds.{Spread, AllOwned, strings}
use tiny_tcp_over_tun.Parser.Written.{new-Writes, finish-Writes, flush-AllOwned, buffer-AllOwned}
use tiny_tcp_over_tun.Helpers
use tiny_tcp_over_tun.Helpers.Reparse.{new_parser-Holds, parse-Ends}
use tiny_tcp_over_tun.Ipv4
use tiny_tcp_over_tun.Ipv4.{
  Ipv4Header, Ipv4Datagram, pseudo_checksum, payload_length, compute_checksum, serialize_header,
}
use tiny_tcp_over_tun.Ipv4.Datagram.{IsDatagram}
use tiny_tcp_over_tun.TcpPeer.{TcpMessage}
use tiny_tcp_over_tun.TcpSegment
use tiny_tcp_over_tun.TcpSegment.{TcpSegment, ackno_or_zero}
use tiny_tcp_over_tun.TcpSegment.Format.{IsSegment, segment_bytes, normal, serialize-Appends}
use tiny_tcp_over_tun.TcpSegment.Checked
use tiny_tcp_over_tun.TcpSegment.Checked.{segment_size}
use tiny_tcp_over_tun.TcpOverIp.{Adapter, segment_for, header_for, wrap_tcp_in_ip}

-- The numbers of a message are in the range of their types, and it fits into a datagram.
pub record IsMessage (m : TcpMessage) : Type 0 where
  pub seqno : m.sender.seqno.raw_value < 2 ^ 32
  pub ackno : ackno_or_zero m.receiver.ackno < 2 ^ 32
  pub window_size : m.receiver.window_size < 2 ^ 16
  pub payload : AllBytes m.sender.payload
  pub fits : length m.sender.payload ≤ 65495

pub record IsAddress (a : Address) : Type 0 where
  pub ip : a.ip < 2 ^ 32
  pub port : a.port < 2 ^ 16

pub record IsEndpoint (a : Adapter) : Type 0 where
  pub source : IsAddress a.cfg.source
  pub destination : IsAddress a.cfg.destination

-- The header with its checksum.
abbrev pub summed : TcpMessage → Adapter → Ipv4Header
summed msg a = record (header_for msg a) {
  cksum = Checksum.value (
      Checksum.add_all
        (map get (finish (Ipv4.write_fields (record (header_for msg a) { cksum = 0 }) new)))
        (Checksum.init 0));
}

abbrev pub checked : TcpMessage → Adapter → TcpSegment
checked msg a = TcpSegment.compute_checksum (segment_for msg a) (pseudo_checksum (header_for msg a))

abbrev pub wrapped : TcpMessage → Adapter → Ipv4Datagram
wrapped msg a = record {
  header = summed msg a;
  payload = Helpers.serialize (TcpSegment.serialize (checked msg a));
}

pub wrap-wrapped : (msg : TcpMessage) (a : Adapter) → wrap_tcp_in_ip msg a ≡ some (wrapped msg a)
unfolding wrap_tcp_in_ip compute_checksum serialize_header header_for
wrap-wrapped msg a = refl

segment_for-IsSegment :
    (msg : TcpMessage) (a : Adapter) → IsMessage msg → IsEndpoint a → IsSegment (segment_for msg a)
unfolding segment_for
segment_for-IsSegment msg a ok ends = record {
  src_port = ends.source.port;
  dst_port = ends.destination.port;
  cksum = omega arith;
  seqno = ok.seqno;
  ackno = ok.ackno;
  window_size = ok.window_size;
  payload = ok.payload;
  fits = ok.fits;
}

pseudo_range :
    (msg : TcpMessage) (a : Adapter) → IsEndpoint a → pseudo_checksum (header_for msg a) < 2 ^ 20
unfolding pseudo_checksum payload_length header_for ipv4_numeric
pseudo_range msg a ends = omega (arith, ends.source.ip, ends.destination.ip)

all_owned : (seg : TcpSegment) → AllOwned (finish (TcpSegment.serialize seg new))
unfolding finish TcpSegment.serialize Serializer.integer
all_owned seg =
    flush-AllOwned (TcpSegment.serialize seg new) (buffer-AllOwned seg.message.sender.payload _ tt)

-- What a serializer makes of a segment: owned strings.
pub serialize-Spread :
    (seg : TcpSegment) → Spread (Helpers.serialize (TcpSegment.serialize seg)) (segment_bytes seg)
unfolding Helpers.serialize
serialize-Spread seg =
    let (full, content) =
      finish-Writes (TcpSegment.serialize seg new) (segment_bytes seg)
        (serialize-Appends seg new [] new-Writes) in
    record { content = content; owned = all_owned seg; full = full }

pub checked_size :
    (msg : TcpMessage) (a : Adapter)
    → length (segment_bytes (checked msg a)) ≡ 20 + length msg.sender.payload
unfolding TcpSegment.compute_checksum segment_for
checked_size msg a = segment_size (checked msg a)

pub wrapped-IsDatagram :
    (msg : TcpMessage) (a : Adapter) → IsMessage msg → IsEndpoint a → IsDatagram (wrapped msg a)
unfolding header_for ipv4_numeric compute_checksum serialize_header
wrapped-IsDatagram msg a ok ends = record {
  header = record {
    ver = refl;
    hlen = refl;
    tos = omega arith;
    len = omega arith;
    id = omega arith;
    offset = omega arith;
    ttl = omega arith;
    proto = omega arith;
    cksum = value_range _;
    src = ends.source.ip;
    dst = ends.destination.ip;
  };
  sum = refl;
  len = omega (arith, ok.fits, ap length content, checked_size msg a);
}
  where
    content :
        concat (strings (Helpers.serialize (TcpSegment.serialize (checked msg a))))
        ≡ segment_bytes (checked msg a)
    content = (serialize-Spread (checked msg a)).content

-- The segment of a datagram is read back, from whatever owned strings.
pub segment_parsed :
    (msg : TcpMessage) (a : Adapter) (refs : List (Ref (List ℕ)))
    → IsMessage msg
    → IsEndpoint a
    → Spread refs (segment_bytes (checked msg a))
    → Helpers.parse (TcpSegment.parse TcpSegment.new_segment (pseudo_checksum (summed msg a))) refs
      ≡ some (normal (checked msg a), true)
unfolding pseudo_checksum payload_length
segment_parsed msg a refs ok ends spread =
    let seg = segment_for-IsSegment msg a ok ends in
    let few = pseudo_range msg a ends in
    let (p, made, holds) =
      new_parser-Holds refs (segment_bytes (checked msg a)) spread.owned spread.full spread.content
        (omega (arith, checked_size msg a, ok.fits)) in
    let (r, parsed, e) =
      parse-Ends (TcpSegment.parse TcpSegment.new_segment (pseudo_checksum (header_for msg a))) refs
        p made
        (TcpSegment.Checked.parse-Ends (segment_for msg a) (pseudo_checksum (header_for msg a)) seg
          few TcpSegment.new_segment p holds) in
    parsed ∙ ap (λ s. some (s, true)) e
