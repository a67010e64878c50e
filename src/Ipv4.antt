-- ===== src/Ipv4.antt =====
-- Internet datagrams: util/ipv4_header.{hh,cc} and util/ipv4_datagram.hh.
pub mod Format
pub mod Datagram
use tiny_tcp_over_tun.Common.{
  ℕ, ◌+◌, ◌-◌, ◌*◌, ◌/◌, ◌%◌, ◌^◌, List, [], Bool, true, false, not, Option, none, some, ◌==◌, ltb,
  map, if◌then◌else◌,
}
use tiny_tcp_over_tun.Ref.{Ref, get}
use tiny_tcp_over_tun.Wrap32.{u32}
use tiny_tcp_over_tun.Checksum
use tiny_tcp_over_tun.Parser.{
  Parse, pure, ◌>>=◌, ◌>>◌, integer, set_error, has_error, remove_prefix, truncate, all_remaining,
}
use tiny_tcp_over_tun.Parser.Serializer
use tiny_tcp_over_tun.Parser.Serializer.{Serializer, ◌|>◌, new, finish, buffers}

abbrev pub header_length : ℕ
header_length = 20

abbrev pub default_ttl : ℕ
default_ttl = 128

abbrev pub proto_tcp : ℕ
proto_tcp = 6

pub record Ipv4Header : Type 0 where
  pub ver : ℕ
  pub hlen : ℕ
  pub tos : ℕ
  pub len : ℕ
  pub id : ℕ
  pub df : Bool
  pub mf : Bool
  pub offset : ℕ
  pub ttl : ℕ
  pub proto : ℕ
  pub cksum : ℕ
  pub src : ℕ
  pub dst : ℕ

abbrev pub new_header : Ipv4Header
new_header = record {
  ver = 4;
  hlen = header_length / 4;
  tos = 0;
  len = 0;
  id = 0;
  df = true;
  mf = false;
  offset = 0;
  ttl = default_ttl;
  proto = proto_tcp;
  cksum = 0;
  src = 0;
  dst = 0;
}

unfoldable pub payload_length : Ipv4Header → ℕ
payload_length h = (h.len + 2 ^ 16 - 4 * h.hlen) % 2 ^ 16

unfoldable pub pseudo_checksum : Ipv4Header → ℕ
unfolding payload_length
pseudo_checksum h =
    (h.src / 2 ^ 16
      + h.src % 2 ^ 16
      + (h.dst / 2 ^ 16 + h.dst % 2 ^ 16)
      + h.proto
      + payload_length h)
    % u32

-- The fields of one byte and of two bytes that are made of several. `|` of values without a common
-- bit is their sum.
unfoldable pub first_byte : Ipv4Header → ℕ
first_byte h = (h.ver * 2 ^ 4 + h.hlen % 2 ^ 4) % 2 ^ 8

unfoldable pub fo_val : Ipv4Header → ℕ
fo_val h = (if h.df then 0x4000 else 0) + (if h.mf then 0x2000 else 0) + h.offset % 0x2000

unfoldable pub write_fields : Ipv4Header → Serializer → Serializer
write_fields h s =
    s
    |> Serializer.integer 1 (first_byte h)
    |> Serializer.integer 1 h.tos
    |> Serializer.integer 2 h.len
    |> Serializer.integer 2 h.id
    |> Serializer.integer 2 (fo_val h)
    |> Serializer.integer 1 h.ttl
    |> Serializer.integer 1 h.proto
    |> Serializer.integer 2 h.cksum
    |> Serializer.integer 4 h.src
    |> Serializer.integer 4 h.dst

-- `none`: the exception for a wrong IP version.
unfoldable pub serialize_header : Ipv4Header → Serializer → Option Serializer
serialize_header h s = if h.ver == 4 then some (write_fields h s) else none

unfoldable pub compute_checksum : Ipv4Header → Option Ipv4Header
compute_checksum h = elim (serialize_header (record h { cksum = 0 }) new) [
  | none ↦ none
  | some s ↦ some (record h {
    cksum = Checksum.value (Checksum.add_all (map get (finish s)) (Checksum.init 0));
  })
]

-- `parse` up to the tests.
unfoldable pub parse_fields : Ipv4Header → Parse Ipv4Header
parse_fields h = do
  first_byte ← integer 1 0
  tos ← integer 1 h.tos
  len ← integer 2 h.len
  id ← integer 2 h.id
  fo_val ← integer 2 0
  ttl ← integer 1 h.ttl
  proto ← integer 1 h.proto
  cksum ← integer 2 h.cksum
  src ← integer 4 h.src
  dst ← integer 4 h.dst
  pure (record {
    ver = first_byte / 2 ^ 4;
    hlen = first_byte % 2 ^ 4;
    tos = tos;
    len = len;
    id = id;
    df = (fo_val / 0x4000) % 2 == 1;
    mf = (fo_val / 0x2000) % 2 == 1;
    offset = fo_val % 0x2000;
    ttl = ttl;
    proto = proto;
    cksum = cksum;
    src = src;
    dst = dst;
  })

-- The checksum that was computed, against the one that was given.
unfoldable pub compare_checksum : ℕ → Option Ipv4Header → Parse Ipv4Header
compare_checksum given none p = none
compare_checksum given (some h) p = (if h.cksum == given then pure h else (do set_error; pure h)) p

-- `parse` from the tests on.
unfoldable pub check_header : Ipv4Header → Parse Ipv4Header
check_header h = do
  if h.ver == 4 then pure tt else set_error
  if ltb h.hlen 5 then set_error else pure tt
  error ← has_error
  if error then pure h else (do
    remove_prefix (h.hlen * 4 - header_length)
    compare_checksum h.cksum (compute_checksum h))

unfoldable pub parse_header : Ipv4Header → Parse Ipv4Header
parse_header h = parse_fields h >>= check_header

pub record Ipv4Datagram : Type 0 where
  pub header : Ipv4Header
  pub payload : List (Ref (List ℕ))

abbrev pub new_datagram : Ipv4Datagram
new_datagram = record { header = new_header; payload = [] }

unfoldable pub parse : Ipv4Datagram → Parse Ipv4Datagram
parse d = do
  header ← parse_header d.header
  truncate (payload_length header)
  payload ← all_remaining
  pure (record { header = header; payload = payload })

unfoldable pub serialize : Ipv4Datagram → Serializer → Option Serializer
serialize d s = elim (serialize_header d.header s) [
  | none ↦ none
  | some t ↦ some (buffers d.payload t)
]
