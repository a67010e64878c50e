-- ===== src/Adapters/Tun.antt =====
-- Two endpoints of a connection over TUN devices (util/tuntap_adapter.cc): what one writes, the other
-- reads.
use tiny_tcp_over_tun.Common.{
  ℕ, ◌+◌, ◌≤◌, ◌≡◌, inl, inr, List, [], ◌∷◌, ◌++◌, map, length, take, drop, length-take,
  length-drop, take-append-drop, append-nil, take-of_le, true, some, arith, refl, ap, sym, subst,
  ◌∙◌,
}
use tiny_tcp_over_tun.Ref.{owned, get, is_borrowed, is_owned}
use tiny_tcp_over_tun.Address.{Address}
use tiny_tcp_over_tun.Parser.Serializer.{new, finish, buffers}
use tiny_tcp_over_tun.Parser.Content.{concat, EmptiesLast}
use tiny_tcp_over_tun.Parser.Holds.{strings, AllOwned}
use tiny_tcp_over_tun.Parser.Written.{new-Writes, finish-Writes}
use tiny_tcp_over_tun.Helpers
use tiny_tcp_over_tun.Helpers.Reparse.{parse-Ends, new_parser-Holds}
use tiny_tcp_over_tun.Ipv4
use tiny_tcp_over_tun.Ipv4.{Ipv4Datagram, new_datagram, write_fields}
use tiny_tcp_over_tun.Ipv4.Format.{header_bytes}
use tiny_tcp_over_tun.Ipv4.Datagram
use tiny_tcp_over_tun.Ipv4.Datagram.{
  Same, IsDatagram, payload_bytes, header_size, serialize-some, serialize-Appends,
}
use tiny_tcp_over_tun.TcpPeer.{TcpMessage}
use tiny_tcp_over_tun.TcpSegment.Format.{one_rst}
use tiny_tcp_over_tun.TcpOverIp.{Adapter}
use tiny_tcp_over_tun.TcpOverIp.Wrapped.{
  IsMessage, IsEndpoint, checked, checked_size, wrapped, wrap-wrapped, wrapped-IsDatagram,
  serialize-Spread,
}
use tiny_tcp_over_tun.TcpOverIp.Unwrapped.{Carries, Peers, unwrap-Carries}
use tiny_tcp_over_tun.Adapters.{read_buffer_size, read_buffers, read_tun, write_tun}

-- The two headers and what is left, when the last string has room for it
abbrev parts : List ℕ → List (List ℕ)
parts packet = read_buffers (20 ∷ 20 ∷ 0 ∷ []) packet

concat-parts : (packet : List ℕ) → length packet ≤ 16424 → concat (parts packet) ≡ packet
unfolding read_buffers
concat-parts packet h =
    ap (λ l. take 20 packet ++ (take 20 (drop 20 packet) ++ l))
      (append-nil (take read_buffer_size (drop 20 (drop 20 packet)))
        ∙ take-of_le read_buffer_size (drop 20 (drop 20 packet))
            (omega (arith, length-drop 20 packet, length-drop 20 (drop 20 packet))))
    ∙ ap (◌++◌ (take 20 packet)) (take-append-drop 20 (drop 20 packet))
    ∙ take-append-drop 20 packet

parts-EmptiesLast : (packet : List ℕ) → 40 ≤ length packet → EmptiesLast (parts packet)
unfolding read_buffers
parts-EmptiesLast packet h = (
  inl (omega (arith, length-take 20 packet)),
  (inl (omega (arith, length-take 20 (drop 20 packet), length-drop 20 packet)), (inr refl, tt)),
)

owned_strings : (bs : List (List ℕ)) → AllOwned (map owned bs) × (strings (map owned bs) ≡ bs)
unfolding is_borrowed is_owned get
owned_strings [] = (tt, refl)
owned_strings (b ∷ bs) = let (o, e) = owned_strings bs in ((refl, o), ap (◌∷◌ b) e)

-- A datagram in one packet is parsed from the three strings.
parts-parsed :
    (d : Ipv4Datagram)
    → IsDatagram d
    → 20 ≤ length (payload_bytes d)
    → length (payload_bytes d) ≤ 16404
    → (e : Ipv4Datagram) × (Helpers.parse
          (Ipv4.parse new_datagram)
          (map owned (parts (header_bytes d.header (payload_bytes d))))
        ≡ some (e, true))
      × Same d e
parts-parsed d ok low high =
    let packet = header_bytes d.header (payload_bytes d) in
    let size = header_size d.header (payload_bytes d) in
    let (o, e) = owned_strings (parts packet) in
    let (p, made, holds) =
      new_parser-Holds (map owned (parts packet)) packet o
        (subst EmptiesLast (sym e) (parts-EmptiesLast packet (omega (arith, size))))
        (ap concat e ∙ concat-parts packet (omega (arith, size))) (omega (arith, size)) in
    parse-Ends (Ipv4.parse new_datagram) (map owned (parts packet)) p made
      (Ipv4.Datagram.parse-Ends d new_datagram p ok holds)

Same-Carries :
    (msg : TcpMessage) (a : Adapter) (d : Ipv4Datagram) → Same (wrapped msg a) d → Carries msg a d
Same-Carries msg a d same = record {
  header = same.header;
  payload = record {
    content = same.payload.content ∙ (serialize-Spread (checked msg a)).content;
    owned = same.payload.owned;
    full = same.payload.full;
  };
}

-- The strings that `write` of one endpoint of a connection gives to its TUN device make one packet.
-- When `read` of the other endpoint gets that packet from its device, it returns the message, with
-- one RST flag in place of the two, and leaves the other endpoint as it is. The numbers of the
-- message and the addresses of the first endpoint are in the range of their types, the other endpoint
-- does not listen for a connection, and the payload has at most 16384 bytes.
pub read-write_tun :
    (numeric_address : ℕ → ℕ → Address) (msg : TcpMessage) (a b : Adapter)
    → IsMessage msg
    → IsEndpoint a
    → Peers a b
    → length msg.sender.payload ≤ 16384
    → (strs : List (List ℕ)) × (write_tun msg a ≡ some strs)
      × (read_tun numeric_address (concat strs) b ≡ some (some (one_rst msg), b))
unfolding write_tun read_tun
read-write_tun numeric_address msg a b ok ends peers fits =
    let ok' = wrapped-IsDatagram msg a ok ends in
    let s = buffers (wrapped msg a).payload (write_fields (wrapped msg a).header new) in
    let written = serialize-some (wrapped msg a) new ok'.header.ver in
    let (full, content) = finish-Writes s _ (serialize-Appends (wrapped msg a) new [] new-Writes) in
    let size : length (payload_bytes (wrapped msg a)) ≡ 20 + length msg.sender.payload =
      ap length (serialize-Spread (checked msg a)).content ∙ checked_size msg a in
    let (d, parsed, same) =
      parts-parsed (wrapped msg a) ok' (omega (arith, size)) (omega (arith, size)) in
    (
      map get (finish s),
      rw (wrap-wrapped msg a, written, write_tun) refl,
      rw (content, parsed, read_tun)
          (unwrap-Carries numeric_address msg a b d ok ends peers (Same-Carries msg a d same)),
    )
