-- ===== src/Arp.antt =====
-- ARP messages: util/arp_message.{hh,cc}.
pub mod Format
use tiny_tcp_over_tun.Common.{
  ℕ, List, Bool, true, false, not, ◌&&◌, ◌||◌, Option, none, some, ◌==◌, if◌then◌else◌,
}
use tiny_tcp_over_tun.Parser.{Parse, pure, ◌>>=◌, ◌>>◌, integer, set_error}
use tiny_tcp_over_tun.Parser.Serializer
use tiny_tcp_over_tun.Parser.Serializer.{Serializer, ◌|>◌}
use tiny_tcp_over_tun.Ethernet.{
  EthernetAddress, no_address, type_ipv4, parse_address, serialize_address,
}

abbrev pub type_ethernet : ℕ
type_ethernet = 1

abbrev pub opcode_request : ℕ
opcode_request = 1

abbrev pub opcode_reply : ℕ
opcode_reply = 2

-- The values of a new `ARPMessage` are those of `new_message`.
pub record ArpMessage : Type 0 where
  pub hardware_type : ℕ
  pub protocol_type : ℕ
  pub hardware_address_size : ℕ
  pub protocol_address_size : ℕ
  pub opcode : ℕ
  pub sender_ethernet_address : EthernetAddress
  pub sender_ip_address : ℕ
  pub target_ethernet_address : EthernetAddress
  pub target_ip_address : ℕ

abbrev pub new_message : ArpMessage
new_message = record {
  hardware_type = type_ethernet;
  protocol_type = type_ipv4;
  hardware_address_size = 6;
  protocol_address_size = 4;
  opcode = 0;
  sender_ethernet_address = no_address;
  sender_ip_address = 0;
  target_ethernet_address = no_address;
  target_ip_address = 0;
}

unfoldable pub supported : ArpMessage → Bool
supported m =
    m.hardware_type == type_ethernet
    && (m.protocol_type == type_ipv4)
    && (m.hardware_address_size == 6)
    && (m.protocol_address_size == 4)
    && (m.opcode == opcode_request || (m.opcode == opcode_reply))

-- The part of `parse` up to the test whether the message is supported.
unfoldable pub parse_types : ArpMessage → Parse ArpMessage
parse_types m = do
  hardware_type ← integer 2 m.hardware_type
  protocol_type ← integer 2 m.protocol_type
  hardware_address_size ← integer 1 m.hardware_address_size
  protocol_address_size ← integer 1 m.protocol_address_size
  opcode ← integer 2 m.opcode
  pure (record m {
    hardware_type = hardware_type;
    protocol_type = protocol_type;
    hardware_address_size = hardware_address_size;
    protocol_address_size = protocol_address_size;
    opcode = opcode;
  })

unfoldable pub parse_addresses : ArpMessage → Parse ArpMessage
parse_addresses m = do
  sender_ethernet_address ← parse_address m.sender_ethernet_address
  sender_ip_address ← integer 4 m.sender_ip_address
  target_ethernet_address ← parse_address m.target_ethernet_address
  target_ip_address ← integer 4 m.target_ip_address
  pure (record m {
    sender_ethernet_address = sender_ethernet_address;
    sender_ip_address = sender_ip_address;
    target_ethernet_address = target_ethernet_address;
    target_ip_address = target_ip_address;
  })

unfoldable pub parse : ArpMessage → Parse ArpMessage
parse m = do
  m' ← parse_types m
  if not (supported m') then (do set_error; pure m') else parse_addresses m'

-- `none`: the exception for an unsupported combination of fields.
unfoldable pub serialize : ArpMessage → Serializer → Option Serializer
serialize m s =
    if not (supported m)
    then none
    else some (
        s
        |> Serializer.integer 2 m.hardware_type
        |> Serializer.integer 2 m.protocol_type
        |> Serializer.integer 1 m.hardware_address_size
        |> Serializer.integer 1 m.protocol_address_size
        |> Serializer.integer 2 m.opcode
        |> serialize_address m.sender_ethernet_address
        |> Serializer.integer 4 m.sender_ip_address
        |> serialize_address m.target_ethernet_address
        |> Serializer.integer 4 m.target_ip_address)
