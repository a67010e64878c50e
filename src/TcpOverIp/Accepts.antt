-- ===== src/TcpOverIp/Accepts.antt =====
-- A listening adapter (`unwrap_tcp_in_ip` of util/tcp_over_ip.cc).
use tiny_tcp_over_tun.Common.{
  ℕ, ◌^◌, ◌<◌, ◌≡◌, true, false, not, ◌||◌, Option, none, some, refl, ap, sym, ◌∙◌, if◌then◌else◌,
  ◌==◌, ==_refl, subst,
}
use tiny_tcp_over_tun.Address.{Address, ipv4_numeric}
use tiny_tcp_over_tun.Ipv4.{Ipv4Datagram}
use tiny_tcp_over_tun.TcpPeer.{TcpMessage}
use tiny_tcp_over_tun.TcpSegment
use tiny_tcp_over_tun.TcpSegment.Format.{normal, one_rst}
use tiny_tcp_over_tun.TcpOverIp.{
  Adapter, set_listening, for_us, accept, deliver, unwrap_tcp_in_ip, wrap_tcp_in_ip, segment_for,
  header_for,
}
use tiny_tcp_over_tun.TcpOverIp.Wrapped.{
  IsMessage, IsEndpoint, summed, checked, wrapped, wrap-wrapped, serialize-Spread, segment_parsed,
}
use tiny_tcp_over_tun.TcpOverIp.Unwrapped.{Peers, unwrap-deliver}

-- The listening adapter `b` after it has taken a segment of `a`.
abbrev connected_to : Adapter → Adapter → Adapter
connected_to a b = record {
  cfg = record b.cfg {
    source = record { ip = a.cfg.destination.ip; port = b.cfg.source.port };
    destination = a.cfg.source;
  };
  listen = false;
}

for_us-listening :
    (msg : TcpMessage) (a b : Adapter) → b.listen ≡ true → for_us (summed msg a) b ≡ true
unfolding for_us header_for
for_us-listening msg a b l = rw l refl

module _ (numeric_address : ℕ → ℕ → Address)
    (resolved : (ip port : ℕ)
      → ip < 2 ^ 32
      → port < 2 ^ 16
      → numeric_address ip port ≡ record { ip = ip; port = port }) where
  accept-syn :
      (msg : TcpMessage) (a b : Adapter)
      → IsEndpoint a
      → b.cfg.source.port < 2 ^ 16
      → b.listen ≡ true
      → msg.sender.syn ≡ true
      → (msg.sender.rst || msg.receiver.rst) ≡ false
      → accept numeric_address (summed msg a) (normal (checked msg a)) b ≡ some (connected_to a b)
  unfolding accept TcpSegment.compute_checksum segment_for header_for ipv4_numeric set_listening
  accept-syn msg a b ends small l syn rst = rw l (
      rw (syn, rst)
        (λ i. some (record {
          cfg = record b.cfg {
            source = resolved a.cfg.destination.ip b.cfg.source.port ends.destination.ip small i;
            destination =
                resolved a.cfg.source.ip a.cfg.source.port ends.source.ip ends.source.port i;
          };
          listen = false;
        })))

  deliver-syn :
      (msg : TcpMessage) (a b : Adapter)
      → IsEndpoint a
      → b.listen ≡ true
      → b.cfg.source.port ≡ a.cfg.destination.port
      → msg.sender.syn ≡ true
      → (msg.sender.rst || msg.receiver.rst) ≡ false
      → deliver numeric_address (summed msg a) (normal (checked msg a)) b
        ≡ (some (one_rst msg), connected_to a b)
  unfolding deliver TcpSegment.compute_checksum segment_for
  deliver-syn msg a b ends l port syn rst =
      let small : b.cfg.source.port < 2 ^ 16 =
        subst (λ p. p < 2 ^ 16) (sym port) ends.destination.port in
      let taken = accept-syn msg a b ends small l syn rst in
      let here : (a.cfg.destination.port == b.cfg.source.port) ≡ true =
        ap (λ p. a.cfg.destination.port == p) port ∙ ==_refl a.cfg.destination.port in
      rw here (
        ap
          (λ o. elim o as (λ _. Option TcpMessage × Adapter) [
            | none ↦ (none, b)
            | some c ↦
                if not (a.cfg.source.port == c.cfg.destination.port)
                then (none, c)
                else (some (one_rst msg), c)
          ])
          taken
        ∙ rw (==_refl a.cfg.source.port) refl)

  -- A listening adapter on the port to which a message goes takes it when it has a SYN and no RST: it
  -- returns the message, stops listening, and is the other endpoint of the sender's connection from
  -- then on. The message is in the range of its types and has at most 65495 bytes, and the resolver
  -- gives for a number and a port the address with them.
  pub unwrap-syn :
      (msg : TcpMessage) (a b : Adapter)
      → IsMessage msg
      → IsEndpoint a
      → b.listen ≡ true
      → b.cfg.source.port ≡ a.cfg.destination.port
      → msg.sender.syn ≡ true
      → (msg.sender.rst || msg.receiver.rst) ≡ false
      → (d : Ipv4Datagram) × (after : Adapter) × (wrap_tcp_in_ip msg a ≡ some d)
        × (unwrap_tcp_in_ip numeric_address d b ≡ some (some (one_rst msg), after))
        × Peers a after
  unwrap-syn msg a b ok ends l port syn rst = (
    wrapped msg a,
    connected_to a b,
    wrap-wrapped msg a,
    unwrap-deliver numeric_address (summed msg a) (wrapped msg a).payload (normal (checked msg a)) b
          (for_us-listening msg a b l)
          (segment_parsed msg a (wrapped msg a).payload ok ends (serialize-Spread (checked msg a)))
        ∙ ap some (deliver-syn msg a b ends l port syn rst),
    record {
      ours = λ i. record { ip = a.cfg.destination.ip; port = port i };
      theirs = refl;
      connected = refl;
    },
  )
