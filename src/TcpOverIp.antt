-- ===== src/TcpOverIp.antt =====
-- util/tcp_over_ip.{hh,cc}, util/fd_adapter.hh and the `FdAdapterConfig` of util/tcp_config.hh: TCP
-- segments in Internet datagrams.
pub mod Wrapped
pub mod Unwrapped
pub mod Accepts
use tiny_tcp_over_tun.Common.{
  ℕ, ◌+◌, ◌*◌, ◌%◌, ◌^◌, length, Bool, true, false, not, ◌&&◌, ◌||◌, Option, none, some, ◌==◌,
  if◌then◌else◌,
}
use tiny_tcp_over_tun.Ref.{Ref, copy}
use tiny_tcp_over_tun.Address.{Address, ipv4_numeric}
use tiny_tcp_over_tun.Helpers
use tiny_tcp_over_tun.Ipv4
use tiny_tcp_over_tun.Ipv4.{Ipv4Header, Ipv4Datagram, proto_tcp, pseudo_checksum}
use tiny_tcp_over_tun.TcpPeer.{TcpMessage}
use tiny_tcp_over_tun.TcpSegment
use tiny_tcp_over_tun.TcpSegment.{TcpSegment}

pub record FdAdapterConfig : Type 0 where
  pub source : Address
  pub destination : Address
  pub loss_rate_dn : ℕ
  pub loss_rate_up : ℕ

-- `FdAdapterBase`
pub record Adapter : Type 0 where
  pub cfg : FdAdapterConfig
  pub listen : Bool

unfoldable pub set_listening : Bool → Adapter → Adapter
set_listening l a = record a { listen = l }

-- An assignment to `config_mut()`
unfoldable pub set_config : FdAdapterConfig → Adapter → Adapter
set_config cfg a = record a { cfg = cfg }

-- `tick` does nothing.
unfoldable pub tick : ℕ → Adapter → Adapter
tick unused a = a

abbrev pub listening : Adapter → Bool
listening a = a.listen

-- What `unwrap_tcp_in_ip` checks before it parses the segment.
unfoldable pub for_us : Ipv4Header → Adapter → Bool
for_us h a =
    if not (listening a) && not (h.dst == ipv4_numeric a.cfg.source)
    then false
    else if not (listening a) && not (h.src == ipv4_numeric a.cfg.destination)
    then false
    else h.proto == proto_tcp

-- `numeric_address` is the address with this number and this port: `inet_ntoa` of the C library, and
-- the resolver on its text.
module _ (numeric_address : ℕ → ℕ → Address) where
  -- The step of `unwrap_tcp_in_ip` that ends listening; `none` drops the segment.
  unfoldable pub accept : Ipv4Header → TcpSegment → Adapter → Option Adapter
  unfolding set_listening
  accept h seg a =
      if listening a
      then if seg.message.sender.syn && not seg.message.sender.rst
        then some (
            set_listening false (record a {
              cfg = record a.cfg {
                source = numeric_address h.dst a.cfg.source.port;
                destination = numeric_address h.src seg.udinfo.src_port;
              };
            }))
        else none
      else some a

  -- `unwrap_tcp_in_ip` from the test of the destination port on.
  unfoldable pub deliver : Ipv4Header → TcpSegment → Adapter → Option TcpMessage × Adapter
  unfolding accept
  deliver h seg a =
      if not (seg.udinfo.dst_port == a.cfg.source.port) then (none, a) else elim (accept h seg a) [
        | none ↦ (none, a)
        | some b ↦
            if not (seg.udinfo.src_port == b.cfg.destination.port)
            then (none, b)
            else (some seg.message, b)
      ]

  -- The outer `none` is an exception.
  unfoldable pub unwrap_tcp_in_ip : Ipv4Datagram → Adapter → Option (Option TcpMessage × Adapter)
  unfolding for_us deliver
  unwrap_tcp_in_ip ip_dgram a =
      let parsed =
        Helpers.parse
          (λ p. TcpSegment.parse TcpSegment.new_segment (pseudo_checksum ip_dgram.header) p)
          ip_dgram.payload in
      if not (for_us ip_dgram.header a) then some (none, a) else elim parsed [
        | none ↦ none
        | some (seg, false) ↦ some (none, a)
        | some (seg, true) ↦ some (deliver ip_dgram.header seg a)
      ]

unfoldable pub segment_for : TcpMessage → Adapter → TcpSegment
segment_for msg a = record {
  message = msg;
  udinfo = record { src_port = a.cfg.source.port; dst_port = a.cfg.destination.port; cksum = 0 };
}

unfoldable pub header_for : TcpMessage → Adapter → Ipv4Header
header_for msg a = record Ipv4.new_header {
  src = ipv4_numeric a.cfg.source;
  dst = ipv4_numeric a.cfg.destination;
  len = (Ipv4.new_header.hlen * 4 + 20 + length msg.sender.payload) % 2 ^ 16;
}

-- The datagram; `none` is an exception.
unfoldable pub wrap_tcp_in_ip : TcpMessage → Adapter → Option Ipv4Datagram
unfolding segment_for header_for
wrap_tcp_in_ip msg a =
    let header = header_for msg a in
    let seg = TcpSegment.compute_checksum (segment_for msg a) (pseudo_checksum header) in
    elim (Ipv4.compute_checksum header) [
      | none ↦ none
      | some summed ↦
          some (record { header = summed; payload = Helpers.serialize (TcpSegment.serialize seg) })
    ]
