-- ===== src/Arp/Format.antt =====
-- ARP messages on the wire (util/arp_message.cc): what is written is read back, and nothing else.
use tiny_tcp_over_tun.Common.{
  ℕ, ◌^◌, ◌<◌, ◌≡◌, List, [], ◌++◌, length, length-append, map, Bool, true, not, some, arith, refl,
  sym, ◌∙◌, transport, if◌then◌else◌,
}
use tiny_tcp_over_tun.Parser.{Parser, Parse}
use tiny_tcp_over_tun.Parser.Serializer.{Serializer, bytes_of, new, finish}
use tiny_tcp_over_tun.Parser.Holds.{Holds}
use tiny_tcp_over_tun.Parser.Gives.{Gives, pure-Gives, and_then}
use tiny_tcp_over_tun.Parser.Integers.{octet-Gives, short-Gives, word-Gives}
use tiny_tcp_over_tun.Parser.Written.{Appends, append_then, integer-Appends, done}
use tiny_tcp_over_tun.Ethernet.Format.{IsAddress, parse_address-Gives, serialize_address-Appends}
use tiny_tcp_over_tun.Ref.{copy}
use tiny_tcp_over_tun.Helpers
use tiny_tcp_over_tun.Helpers.Reparse
use tiny_tcp_over_tun.Helpers.Reparse.{reparse}
use tiny_tcp_over_tun.Arp.{
  ArpMessage, new_message, supported, parse_types, parse_addresses, parse, serialize,
}

-- The bytes of the two halves of a message, in front of others.
abbrev pub type_bytes : ArpMessage → List ℕ → List ℕ
type_bytes m rest =
    bytes_of 2 m.hardware_type
    ++ (bytes_of 2 m.protocol_type
        ++ (bytes_of 1 m.hardware_address_size
            ++ (bytes_of 1 m.protocol_address_size ++ (bytes_of 2 m.opcode ++ rest))))

abbrev pub address_bytes : ArpMessage → List ℕ → List ℕ
address_bytes m rest =
    m.sender_ethernet_address
    ++ (bytes_of 4 m.sender_ip_address
        ++ (m.target_ethernet_address ++ (bytes_of 4 m.target_ip_address ++ rest)))

-- The fields are in the range of their types.
pub record IsMessage (m : ArpMessage) : Type 0 where
  pub supported : supported m ≡ true
  pub sender_ethernet : IsAddress m.sender_ethernet_address
  pub sender_ip : m.sender_ip_address < 2 ^ 32
  pub target_ethernet : IsAddress m.target_ethernet_address
  pub target_ip : m.target_ip_address < 2 ^ 32

supported_ranges :
    (m : ArpMessage)
    → supported m ≡ true
    → (m.hardware_type < 2 ^ 16)
      × (m.protocol_type < 2 ^ 16)
      × (m.hardware_address_size < 2 ^ 8)
      × (m.protocol_address_size < 2 ^ 8)
      × (m.opcode < 2 ^ 16)
unfolding supported
supported_ranges m h = (ground arith, ground arith, ground arith, ground arith, ground arith)

-- The fields that `parse_types` reads.
abbrev types_of : ArpMessage → ArpMessage → ArpMessage
types_of m old = record old {
  hardware_type = m.hardware_type;
  protocol_type = m.protocol_type;
  hardware_address_size = m.hardware_address_size;
  protocol_address_size = m.protocol_address_size;
  opcode = m.opcode;
}

parse_types-Gives :
    (m old : ArpMessage) (rest : List ℕ) (p : Parser)
    → supported m ≡ true
    → Holds p (type_bytes m rest)
    → Gives (parse_types old) p (types_of m old) rest
unfolding parse_types
parse_types-Gives m old rest p ok k =
    let (ht, pt, hs, ps, op) = supported_ranges m ok in
    and_then _ _ (short-Gives m.hardware_type old.hardware_type _ p ht k) (λ p1 k1.
      and_then _ _ (short-Gives m.protocol_type old.protocol_type _ p1 pt k1) (λ p2 k2.
        and_then _ _ (octet-Gives m.hardware_address_size old.hardware_address_size _ p2 hs k2)
          (λ p3 k3.
            and_then _ _ (octet-Gives m.protocol_address_size old.protocol_address_size _ p3 ps k3)
              (λ p4 k4.
                and_then _ _ (short-Gives m.opcode old.opcode _ p4 op k4)
                  (λ p5 k5. pure-Gives (types_of m old) p5 rest k5)))))

parse_addresses-Gives :
    (m old : ArpMessage) (rest : List ℕ) (p : Parser)
    → IsMessage m
    → length old.sender_ethernet_address ≡ 6
    → length old.target_ethernet_address ≡ 6
    → Holds p (address_bytes m rest)
    → Gives (parse_addresses (types_of m old)) p m rest
unfolding parse_addresses
parse_addresses-Gives m old rest p ok es et k =
    let (sb, sl) = ok.sender_ethernet in
    let (tb, tl) = ok.target_ethernet in
    and_then _ _
      (parse_address-Gives m.sender_ethernet_address old.sender_ethernet_address _ p sb
        (sl ∙ sym es) k)
      (λ p1 k1.
        and_then _ _ (word-Gives m.sender_ip_address old.sender_ip_address _ p1 ok.sender_ip k1)
          (λ p2 k2.
            and_then _ _
              (parse_address-Gives m.target_ethernet_address old.target_ethernet_address _ p2 tb
                (tl ∙ sym et) k2)
              (λ p3 k3.
                and_then _ _
                  (word-Gives m.target_ip_address old.target_ip_address _ p3 ok.target_ip k3)
                  (λ p4 k4. pure-Gives m p4 rest k4))))

-- From the bytes of a supported message, `parse` reads that message back without an error, whatever
-- it held before.
pub parse-Gives :
    (m old : ArpMessage) (rest : List ℕ) (p : Parser)
    → IsMessage m
    → length old.sender_ethernet_address ≡ 6
    → length old.target_ethernet_address ≡ 6
    → Holds p (type_bytes m (address_bytes m rest))
    → Gives (parse old) p m rest
unfolding parse
parse-Gives m old rest p ok es et k =
    and_then _ _ (parse_types-Gives m old _ p ok.supported k)
      (λ q l. chosen _ (supported (types_of m old)) (same ok.supported) q l)
  where
    same : supported m ≡ true → supported (types_of m old) ≡ true
    same h = unfold supported in h

    chosen :
        (refused : Parse ArpMessage) (b : Bool)
        → b ≡ true
        → (q : Parser) → Holds q (address_bytes m rest)
        → Gives (if not b then refused else parse_addresses (types_of m old)) q m rest
    chosen refused b e q l =
        transport
          (λ i.
            Gives (if not (sym e i) then refused else parse_addresses (types_of m old)) q m rest)
          (parse_addresses-Gives m old rest q ok es et l)

-- A supported message is written without an exception.
pub serialize-Appends :
    (m : ArpMessage) (s : Serializer)
    → IsMessage m
    → (t : Serializer) × (serialize m s ≡ some t) × Appends s t (type_bytes m (address_bytes m []))
unfolding serialize
serialize-Appends m s ok = (
  _,
  rw (ok.supported, serialize),
  append_then _ _ _ (bytes_of 2 m.hardware_type) _ (integer-Appends 2 m.hardware_type s) (
      append_then _ _ _ (bytes_of 2 m.protocol_type) _ (integer-Appends 2 m.protocol_type _) (
        append_then _ _ _ (bytes_of 1 m.hardware_address_size) _
          (integer-Appends 1 m.hardware_address_size _)
          (append_then _ _ _ (bytes_of 1 m.protocol_address_size) _
            (integer-Appends 1 m.protocol_address_size _)
            (append_then _ _ _ (bytes_of 2 m.opcode) _ (integer-Appends 2 m.opcode _) (
              append_then _ _ _ m.sender_ethernet_address _
                (serialize_address-Appends m.sender_ethernet_address _ ok.sender_ethernet.0)
                (append_then _ _ _ (bytes_of 4 m.sender_ip_address) _
                  (integer-Appends 4 m.sender_ip_address _)
                  (append_then _ _ _ m.target_ethernet_address _
                    (serialize_address-Appends m.target_ethernet_address _ ok.target_ethernet.0)
                    (append_then _ _ _ (bytes_of 4 m.target_ip_address) []
                      (integer-Appends 4 m.target_ip_address _) (done _))))))))),
)

pub size : (m : ArpMessage) → IsMessage m → length (type_bytes m (address_bytes m [])) ≡ 28
unfolding bytes_of
size m ok = omega (
  arith,
  ok.sender_ethernet.1,
  ok.target_ethernet.1,
  length-append m.sender_ethernet_address (
      bytes_of 4 m.sender_ip_address
      ++ (m.target_ethernet_address ++ (bytes_of 4 m.target_ip_address ++ []))),
  length-append m.target_ethernet_address (bytes_of 4 m.target_ip_address ++ []),
)

-- A supported message with fields in the range of their types is serialized without an exception,
-- and a new message that is parsed from copies of those strings is the same one, without an error.
pub parse-serialize :
    (m : ArpMessage)
    → IsMessage m
    → (s : Serializer) × (serialize m new ≡ some s)
      × (Helpers.parse (parse new_message) (map copy (finish s)) ≡ some (m, true))
parse-serialize m ok =
    let (s, written, appends) = serialize-Appends m new ok in
    let (p, made, holds) =
      reparse s (type_bytes m (address_bytes m [])) appends (omega (arith, size m ok)) in
    (
      s,
      written,
      Helpers.Reparse.parse-Gives (parse new_message) (map copy (finish s)) p m [] made
          (parse-Gives m new_message [] p ok refl refl holds),
    )
