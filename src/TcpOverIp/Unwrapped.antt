-- ===== src/TcpOverIp/Unwrapped.antt =====
-- `unwrap_tcp_in_ip` (util/tcp_over_ip.cc) on what `wrap_tcp_in_ip` of the peer has made.
use tiny_tcp_over_tun.Common.{ℕ, ◌≡◌, List, true, false, some, refl, ap, ◌∙◌, ==_refl}
use tiny_tcp_over_tun.Ref.{Ref}
use tiny_tcp_over_tun.Address.{Address, ipv4_numeric}
use tiny_tcp_over_tun.Parser.Holds.{Spread}
use tiny_tcp_over_tun.Helpers
use tiny_tcp_over_tun.Ipv4.{Ipv4Header, Ipv4Datagram, pseudo_checksum}
use tiny_tcp_over_tun.TcpPeer.{TcpMessage}
use tiny_tcp_over_tun.TcpSegment
use tiny_tcp_over_tun.TcpSegment.{TcpSegment}
use tiny_tcp_over_tun.TcpSegment.Format.{normal, one_rst, segment_bytes}
use tiny_tcp_over_tun.TcpOverIp.{
  Adapter, for_us, accept, deliver, unwrap_tcp_in_ip, wrap_tcp_in_ip, segment_for, header_for,
}
use tiny_tcp_over_tun.TcpOverIp.Wrapped.{
  IsMessage, IsEndpoint, summed, checked, wrapped, wrap-wrapped, serialize-Spread, segment_parsed,
}

-- The same header, and the bytes of the segment in whatever owned strings.
pub record Carries (msg : TcpMessage) (a : Adapter) (d : Ipv4Datagram) : Type 0 where
  pub header : d.header ≡ summed msg a
  pub payload : Spread d.payload (segment_bytes (checked msg a))

pub wrapped-Carries : (msg : TcpMessage) (a : Adapter) → Carries msg a (wrapped msg a)
wrapped-Carries msg a = record { header = refl; payload = serialize-Spread (checked msg a) }

-- The endpoints of one connection
pub record Peers (a b : Adapter) : Type 0 where
  pub ours : b.cfg.source ≡ a.cfg.destination
  pub theirs : b.cfg.destination ≡ a.cfg.source
  pub connected : b.listen ≡ false

module _ (numeric_address : ℕ → ℕ → Address) where
  -- What is left of `unwrap_tcp_in_ip` once the header is for us and the segment has been parsed.
  pub unwrap-deliver :
      (h : Ipv4Header) (payload : List (Ref (List ℕ))) (seg : TcpSegment) (b : Adapter)
      → for_us h b ≡ true
      → Helpers.parse (TcpSegment.parse TcpSegment.new_segment (pseudo_checksum h)) payload
        ≡ some (seg, true)
      → unwrap_tcp_in_ip numeric_address (record { header = h; payload = payload }) b
        ≡ some (deliver numeric_address h seg b)
  unfolding unwrap_tcp_in_ip
  unwrap-deliver h payload seg b us parsed = rw (us, parsed) refl

  for_us-peer : (msg : TcpMessage) (a b : Adapter) → Peers a b → for_us (summed msg a) b ≡ true
  unfolding for_us header_for ipv4_numeric
  for_us-peer msg a b peers =
      let ip : b.cfg.source.ip ≡ a.cfg.destination.ip = ap (λ x. x.ip) peers.ours in
      let ip' : b.cfg.destination.ip ≡ a.cfg.source.ip = ap (λ x. x.ip) peers.theirs in
      rw (peers.connected, ip, ip')
        (rw (==_refl a.cfg.destination.ip, ==_refl a.cfg.source.ip) refl)

  deliver-peer :
      (msg : TcpMessage) (a b : Adapter)
      → Peers a b
      → deliver numeric_address (summed msg a) (normal (checked msg a)) b ≡ (some (one_rst msg), b)
  unfolding deliver accept TcpSegment.compute_checksum segment_for
  deliver-peer msg a b peers =
      let port : b.cfg.source.port ≡ a.cfg.destination.port = ap (λ x. x.port) peers.ours in
      let port' : b.cfg.destination.port ≡ a.cfg.source.port = ap (λ x. x.port) peers.theirs in
      rw (port, ==_refl a.cfg.destination.port)
        (rw peers.connected (rw (port', ==_refl a.cfg.source.port) refl))

  pub unwrap-Carries :
      (msg : TcpMessage) (a b : Adapter) (d : Ipv4Datagram)
      → IsMessage msg
      → IsEndpoint a
      → Peers a b
      → Carries msg a d
      → unwrap_tcp_in_ip numeric_address d b ≡ some (some (one_rst msg), b)
  unwrap-Carries msg a b d ok ends peers c =
      ap (λ h. unwrap_tcp_in_ip numeric_address (record { header = h; payload = d.payload }) b)
        c.header
      ∙ unwrap-deliver (summed msg a) d.payload (normal (checked msg a)) b
          (for_us-peer msg a b peers) (segment_parsed msg a d.payload ok ends c.payload)
      ∙ ap some (deliver-peer msg a b peers)

  -- A message in the range of its types, of at most 65495 bytes, that one endpoint of a connection
  -- wraps is what the other one unwraps, with one RST flag in place of the two, and the other one
  -- stays as it is.
  pub unwrap-wrap_tcp :
      (msg : TcpMessage) (a b : Adapter)
      → IsMessage msg
      → IsEndpoint a
      → Peers a b
      → (d : Ipv4Datagram) × (wrap_tcp_in_ip msg a ≡ some d)
        × (unwrap_tcp_in_ip numeric_address d b ≡ some (some (one_rst msg), b))
  unwrap-wrap_tcp msg a b ok ends peers = (
    wrapped msg a,
    wrap-wrapped msg a,
    unwrap-Carries msg a b (wrapped msg a) ok ends peers (wrapped-Carries msg a),
  )
