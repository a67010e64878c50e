-- ===== src/TcpSegment.antt =====
-- util/tcp_segment.{hh,cc} and util/udinfo.hh: TCP segments. `parse` is only called on a new segment,
-- which owns its messages, so a `Ref` of a message is what it refers to.
pub mod Format
pub mod Checked
use tiny_tcp_over_tun.Common.{
  ℕ, ◌+◌, ◌-◌, ◌*◌, ◌/◌, ◌%◌, ◌^◌, List, [], Bool, true, false, not, ◌||◌, map, Option, none, some,
  ◌==◌, ltb, if◌then◌else◌,
}
use tiny_tcp_over_tun.Ref.{owned, get}
use tiny_tcp_over_tun.Wrap32.{Wrap32}
use tiny_tcp_over_tun.Messages.{TcpSenderMessage, TcpReceiverMessage}
use tiny_tcp_over_tun.TcpPeer.{TcpMessage}
use tiny_tcp_over_tun.Checksum
use tiny_tcp_over_tun.Parser.{
  Parse, pure, ◌>>=◌, ◌>>◌, integer, set_error, remove_prefix, buffer, concatenate_all_remaining,
}
use tiny_tcp_over_tun.Parser.Serializer
use tiny_tcp_over_tun.Parser.Serializer.{Serializer, ◌|>◌, new, finish}

pub record UserDatagramInfo : Type 0 where
  pub src_port : ℕ
  pub dst_port : ℕ
  pub cksum : ℕ

pub record TcpSegment : Type 0 where
  pub message : TcpMessage
  pub udinfo : UserDatagramInfo

abbrev pub header_length : ℕ
header_length = 20

abbrev pub new_message : TcpMessage
new_message = record {
  sender = record {
    seqno = record { raw_value = 0 };
    syn = false;
    payload = [];
    fin = false;
    rst = false;
  };
  receiver = record { ackno = none; window_size = 0; rst = false };
}

abbrev pub new_segment : TcpSegment
new_segment = record {
  message = new_message;
  udinfo = record { src_port = 0; dst_port = 0; cksum = 0 };
}

-- `octet & 2 ^ i`
unfoldable pub has_bit : ℕ → ℕ → Bool
has_bit i octet = (octet / 2 ^ i) % 2 == 1

-- What the fields of the header make of a segment; the payload stays as it is.
unfoldable pub with_fields : ℕ → ℕ → ℕ → ℕ → ℕ → ℕ → ℕ → TcpSegment → TcpSegment
unfolding has_bit
with_fields src_port dst_port seqno ackno flags window_size cksum seg = record {
  message = record {
    sender = record seg.message.sender {
      seqno = record { raw_value = seqno };
      syn = has_bit 1 flags;
      fin = has_bit 0 flags;
      rst = has_bit 2 flags;
    };
    receiver = record {
      ackno = if not (has_bit 4 flags) then none else some (record { raw_value = ackno });
      window_size = window_size;
      rst = has_bit 2 flags;
    };
  };
  udinfo = record { src_port = src_port; dst_port = dst_port; cksum = cksum };
}

abbrev pub with_payload : TcpSegment → List ℕ → TcpSegment
with_payload seg payload = record seg {
  message = record seg.message { sender = record seg.message.sender { payload = payload } };
}

-- `parse` from the test of the data offset on.
unfoldable pub parse_rest : ℕ → TcpSegment → Parse TcpSegment
parse_rest data_offset seg =
    if ltb data_offset (header_length / 4) then (do set_error; pure seg) else (do
      remove_prefix (data_offset * 4 - header_length)
      payload ← concatenate_all_remaining
      pure (with_payload seg payload))

-- `parse` after the test of the checksum.
unfoldable pub parse_fields : TcpSegment → Parse TcpSegment
unfolding with_fields parse_rest
parse_fields seg = do
  src_port ← integer 2 seg.udinfo.src_port
  dst_port ← integer 2 seg.udinfo.dst_port
  seqno ← integer 4 0
  ackno ← integer 4 seqno
  octet ← integer 1 0
  flags ← integer 1 octet
  window_size ← integer 2 seg.message.receiver.window_size
  cksum ← integer 2 seg.udinfo.cksum
  urgent_pointer ← integer 2 0
  parse_rest (octet / 2 ^ 4) (with_fields src_port dst_port seqno ackno flags window_size cksum seg)

unfoldable pub parse : TcpSegment → ℕ → Parse TcpSegment
unfolding parse_fields
parse seg datagram_layer_pseudo_checksum = do
  bytes ← buffer
  if Checksum.value (Checksum.add_all bytes (Checksum.init datagram_layer_pseudo_checksum)) == 0
      then parse_fields seg
      else (do set_error; pure seg)

-- The flags of the header. `|` of values without a common bit is their sum.
unfoldable pub flags_of : TcpMessage → ℕ
flags_of m =
    elim m.receiver.ackno [ none ↦ 0 | some w ↦ 0x10 ]
    + (if m.sender.rst || m.receiver.rst then 4 else 0)
    + (if m.sender.syn then 2 else 0)
    + (if m.sender.fin then 1 else 0)

unfoldable pub ackno_or_zero : Option Wrap32 → ℕ
ackno_or_zero none = 0
ackno_or_zero (some w) = w.raw_value

unfoldable pub serialize : TcpSegment → Serializer → Serializer
unfolding flags_of ackno_or_zero
serialize seg s =
    s
    |> Serializer.integer 2 seg.udinfo.src_port
    |> Serializer.integer 2 seg.udinfo.dst_port
    |> Serializer.integer 4 seg.message.sender.seqno.raw_value
    |> Serializer.integer 4 (ackno_or_zero seg.message.receiver.ackno)
    |> Serializer.integer 1 (header_length / 4 * 2 ^ 4)
    |> Serializer.integer 1 (flags_of seg.message)
    |> Serializer.integer 2 seg.message.receiver.window_size
    |> Serializer.integer 2 seg.udinfo.cksum
    |> Serializer.integer 2 0
    |> Serializer.buffer (owned seg.message.sender.payload)

unfoldable pub compute_checksum : TcpSegment → ℕ → TcpSegment
unfolding serialize
compute_checksum seg datagram_layer_pseudo_checksum =
    let cleared = record seg { udinfo = record seg.udinfo { cksum = 0 } } in
    let check =
      Checksum.add_all (map get (finish (serialize cleared new)))
        (Checksum.init datagram_layer_pseudo_checksum) in
    record seg { udinfo = record seg.udinfo { cksum = Checksum.value check } }
