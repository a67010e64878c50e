-- ===== src/Ipv4/Datagram.antt =====
-- Internet datagrams on the wire (util/ipv4_datagram.hh): what is written is read back.
use tiny_tcp_over_tun.Common.{
  ℕ, ◌+◌, ◌<◌, ◌≡◌, List, [], ◌++◌, length, true, map, some, arith, refl, ap, ◌==◌, u64,
}
use tiny_tcp_over_tun.Ref.{copy}
use tiny_tcp_over_tun.Parser.{Parser, ◌>>◌}
use tiny_tcp_over_tun.Parser.Serializer.{Serializer, new, bytes_of, finish, buffers}
use tiny_tcp_over_tun.Parser.Content.{concat}
use tiny_tcp_over_tun.Parser.Holds.{Holds, Spread, strings}
use tiny_tcp_over_tun.Parser.Ends.{
  Ends, pure-Ends, and_end, end_then, all_remaining-Ends, truncate-Gives,
}
use tiny_tcp_over_tun.Parser.Written.{Appends, append_then, buffers-Writes, rewrites}
use tiny_tcp_over_tun.Helpers.{new_parser}
use tiny_tcp_over_tun.Helpers.Reparse.{reparse}
use tiny_tcp_over_tun.Ipv4.{
  Ipv4Header, Ipv4Datagram, new_datagram, payload_length, serialize_header, write_fields,
  compute_checksum, parse, serialize,
}
use tiny_tcp_over_tun.Ipv4.Format.{IsHeader, header_bytes, parse_header-Gives, write_fields-Appends}

abbrev pub payload_bytes : Ipv4Datagram → List ℕ
payload_bytes d = concat (strings d.payload)

-- A datagram whose header has its own checksum and the length of the payload.
pub record IsDatagram (d : Ipv4Datagram) : Type 0 where
  pub header : IsHeader d.header
  pub sum : compute_checksum d.header ≡ some d.header
  pub len : d.header.len ≡ 20 + length (payload_bytes d)

-- The same header and the same bytes of payload, in whatever owned strings.
pub record Same (d e : Ipv4Datagram) : Type 0 where
  pub header : e.header ≡ d.header
  pub payload : Spread e.payload (payload_bytes d)

payload_length_is :
    (d : Ipv4Datagram) → IsDatagram d → payload_length d.header ≡ length (payload_bytes d)
unfolding payload_length
payload_length_is d ok = omega (arith, ok.len, ok.header.len, ok.header.hlen)

pub parse-Ends :
    (d old : Ipv4Datagram) (p : Parser)
    → IsDatagram d
    → Holds p (header_bytes d.header (payload_bytes d))
    → Ends (parse old) p (Same d)
unfolding parse ◌>>◌
parse-Ends d old p ok k =
    and_end _ _ (parse_header-Gives d.header old.header (payload_bytes d) p ok.header ok.sum k)
      (λ q l.
        and_end _ _
          (truncate-Gives (payload_length d.header) q (payload_bytes d)
            (omega (arith, payload_length_is d ok)) l)
          (λ r m. end_then _ _ (all_remaining-Ends r (payload_bytes d) m) (λ refs s e fine.
            pure-Ends (record { header = d.header; payload = refs }) s fine
              (record { header = refl; payload = e }))))

header_bytes-append :
    (h : Ipv4Header) (rest : List ℕ) → header_bytes h [] ++ rest ≡ header_bytes h rest
unfolding bytes_of
header_bytes-append h rest = refl

-- A datagram of version 4 is written without an exception.
pub serialize-some :
    (d : Ipv4Datagram) (s : Serializer)
    → d.header.ver ≡ 4
    → serialize d s ≡ some (buffers d.payload (write_fields d.header s))
unfolding serialize serialize_header
serialize-some d s e =
    let four : (d.header.ver == 4) ≡ true = ground (arith, e) in
    rw (four, serialize, serialize_header) refl

pub serialize-Appends :
    (d : Ipv4Datagram) (s : Serializer)
    → Appends s
        (buffers d.payload (write_fields d.header s))
        (header_bytes d.header (payload_bytes d))
serialize-Appends d s before w =
    rewrites (ap (◌++◌ before) (header_bytes-append d.header (payload_bytes d))) (
      append_then s (write_fields d.header s) (buffers d.payload (write_fields d.header s))
        (header_bytes d.header []) (payload_bytes d) (write_fields-Appends d.header s)
        (λ b v. buffers-Writes d.payload (write_fields d.header s) b v) before w)

pub header_size : (h : Ipv4Header) (rest : List ℕ) → length (header_bytes h rest) ≡ 20 + length rest
unfolding bytes_of
header_size h rest = omega arith

-- A new parser on copies of what a datagram is written to reads it back.
pub reparsed :
    (d : Ipv4Datagram)
    → IsDatagram d
    → (s : Serializer) × (serialize d new ≡ some s)
      × ((p : Parser) × (new_parser (map copy (finish s)) ≡ some p)
          × Ends (parse new_datagram) p (Same d))
reparsed d ok =
    let s : Serializer = buffers d.payload (write_fields d.header new) in
    let small : length (header_bytes d.header (payload_bytes d)) < u64 =
      omega (arith, header_size d.header (payload_bytes d), ok.len, ok.header.len) in
    let (p, made, holds) =
      reparse s (header_bytes d.header (payload_bytes d)) (serialize-Appends d new) small in
    (s, serialize-some d new ok.header.ver, (p, made, parse-Ends d new_datagram p ok holds))
