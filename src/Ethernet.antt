-- ===== src/Ethernet.antt =====
-- Ethernet frames: util/ethernet_header.{hh,cc} and util/ethernet_frame.hh.
pub mod Format
use tiny_tcp_over_tun.Common.{ℕ, List, [], ◌∷◌, replicate}
use tiny_tcp_over_tun.Ref.{Ref}
use tiny_tcp_over_tun.Parser.{Parse, pure, ◌>>=◌, integer, all_remaining}
use tiny_tcp_over_tun.Parser.Serializer
use tiny_tcp_over_tun.Parser.Serializer.{Serializer, ◌|>◌, buffers}

-- An array of six bytes
abbrev pub EthernetAddress : Type 0
EthernetAddress = List ℕ

abbrev pub ethernet_broadcast : EthernetAddress
ethernet_broadcast = 0xff ∷ 0xff ∷ 0xff ∷ 0xff ∷ 0xff ∷ 0xff ∷ []

abbrev pub no_address : EthernetAddress
no_address = replicate 6 0

abbrev pub type_ipv4 : ℕ
type_ipv4 = 0x800

abbrev pub type_arp : ℕ
type_arp = 0x806

pub record EthernetHeader : Type 0 where
  pub dst : EthernetAddress
  pub src : EthernetAddress
  pub type : ℕ

-- The loop over the bytes of an address, which hold `address` before.
unfoldable pub parse_address : EthernetAddress → Parse EthernetAddress
parse_address [] = pure []
parse_address (b ∷ address) = do
  b' ← integer 1 b
  address' ← parse_address address
  pure (b' ∷ address')

unfoldable pub serialize_address : EthernetAddress → Serializer → Serializer
serialize_address [] s = s
serialize_address (b ∷ address) s = s |> Serializer.integer 1 b |> serialize_address address

unfoldable pub parse_header : EthernetHeader → Parse EthernetHeader
parse_header h = do
  dst ← parse_address h.dst
  src ← parse_address h.src
  type ← integer 2 h.type
  pure (record { dst = dst; src = src; type = type })

unfoldable pub serialize_header : EthernetHeader → Serializer → Serializer
serialize_header h s =
    s |> serialize_address h.dst |> serialize_address h.src |> Serializer.integer 2 h.type

pub record EthernetFrame : Type 0 where
  pub header : EthernetHeader
  pub payload : List (Ref (List ℕ))

unfoldable pub parse : EthernetFrame → Parse EthernetFrame
parse f = do
  header ← parse_header f.header
  payload ← all_remaining
  pure (record { header = header; payload = payload })

unfoldable pub serialize : EthernetFrame → Serializer → Serializer
serialize f s = s |> serialize_header f.header |> buffers f.payload
