-- ===== src/Ethernet/Format.antt =====
-- Ethernet headers on the wire (util/ethernet_header.cc): what is written is read back.
use tiny_tcp_over_tun.Common.{
  AllBytes, ℕ, ◌/◌, ◌%◌, ◌^◌, ◌<◌, ◌≡◌, List, [], ◌∷◌, ◌++◌, length, append_assoc, append-nil,
  arith, ap, sym, ◌∙◌, transport,
}
use tiny_tcp_over_tun.Parser.{Parser}
use tiny_tcp_over_tun.Parser.Serializer
use tiny_tcp_over_tun.Parser.Serializer.{Serializer, bytes_of}
use tiny_tcp_over_tun.Parser.Holds.{Holds}
use tiny_tcp_over_tun.Parser.Gives.{Gives, pure-Gives, and_then}
use tiny_tcp_over_tun.Parser.Integers.{octet-Gives, short-Gives}
use tiny_tcp_over_tun.Parser.Written.{Appends, rewrites, append_then, integer-Writes}
use tiny_tcp_over_tun.Ethernet.{
  EthernetAddress, EthernetHeader, parse_address, serialize_address, parse_header, serialize_header,
}

abbrev pub IsAddress : EthernetAddress → Type 0
IsAddress a = AllBytes a × (length a ≡ 6)

one_byte : (b : ℕ) (rest : List ℕ) → b < 2 ^ 8 → bytes_of 1 b ++ rest ≡ b ∷ rest
unfolding bytes_of
one_byte b rest h = let e : (b / 1) % 2 ^ 8 ≡ b = omega arith in rw e

pub serialize_address-Appends :
    (a : EthernetAddress) (s : Serializer) → AllBytes a → Appends s (serialize_address a s) a
unfolding serialize_address
serialize_address-Appends [] s h before w = rewrites (sym (append-nil before)) w
serialize_address-Appends (b ∷ a) s (h, k) before w =
    rewrites (append_assoc before (bytes_of 1 b) a ∙ ap (◌++◌ before) (one_byte b a h)) (
      serialize_address-Appends a (Serializer.integer 1 b s) k (before ++ bytes_of 1 b)
        (integer-Writes 1 b s before w))

-- Of two arrays of the same size, the one that was there does not matter.
pub parse_address-Gives :
    (a old : EthernetAddress) (rest : List ℕ) (p : Parser)
    → AllBytes a
    → length a ≡ length old
    → Holds p (a ++ rest)
    → Gives (parse_address old) p a rest
unfolding parse_address
parse_address-Gives [] [] rest p h e k = pure-Gives [] p rest k
parse_address-Gives [] (o ∷ old) rest p h e k = absurd (omega arith)
parse_address-Gives (b ∷ a) [] rest p h e k = absurd (omega arith)
parse_address-Gives (b ∷ a) (o ∷ old) rest p (lt, h) e k =
    and_then _ _
      (octet-Gives b o (a ++ rest) p lt
        (transport (λ i. Holds p (sym (one_byte b (a ++ rest) lt) i)) k))
      (λ q l.
        and_then _ _ (parse_address-Gives a old rest q h (omega arith) l)
          (λ r m. pure-Gives (b ∷ a) r rest m))

-- The bytes of a header, in front of others.
abbrev pub header_bytes : EthernetHeader → List ℕ → List ℕ
header_bytes h rest = h.dst ++ (h.src ++ (bytes_of 2 h.type ++ rest))

pub record IsHeader (h : EthernetHeader) : Type 0 where
  pub dst : IsAddress h.dst
  pub src : IsAddress h.src
  pub type : h.type < 2 ^ 16

pub parse_header-Gives :
    (h old : EthernetHeader) (rest : List ℕ) (p : Parser)
    → IsHeader h
    → length old.dst ≡ 6
    → length old.src ≡ 6
    → Holds p (header_bytes h rest)
    → Gives (parse_header old) p h rest
unfolding parse_header
parse_header-Gives h old rest p ok ed es k =
    and_then _ _ (parse_address-Gives h.dst old.dst _ p ok.dst.0 (ok.dst.1 ∙ sym ed) k) (λ q l.
      and_then _ _ (parse_address-Gives h.src old.src _ q ok.src.0 (ok.src.1 ∙ sym es) l) (λ r m.
        and_then _ _ (short-Gives h.type old.type rest r ok.type m) (λ t n. pure-Gives h t rest n)))

pub serialize_header-Appends :
    (h : EthernetHeader) (s : Serializer)
    → IsHeader h
    → Appends s (serialize_header h s) (header_bytes h [])
unfolding serialize_header
serialize_header-Appends h s ok =
    append_then _ _ _ h.dst _ (serialize_address-Appends h.dst s ok.dst.0) (
      append_then _ _ _ h.src _ (serialize_address-Appends h.src _ ok.src.0) (λ before w.
        rewrites (ap (◌++◌ before) (sym (append-nil (bytes_of 2 h.type))))
          (integer-Writes 2 h.type _ before w)))
