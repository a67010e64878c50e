-- ===== src/Ipv4/Format.antt =====
-- IPv4 headers on the wire (util/ipv4_header.cc): what is written is read back.
use tiny_tcp_over_tun.Common.{
  ℕ, ◌+◌, ◌-◌, ◌*◌, ◌/◌, ◌%◌, ◌^◌, ◌<◌, ◌≡◌, List, [], ◌++◌, Bool, some, arith, refl, sym,
  transport, if◌then◌else◌, ◌==◌, ltb, ==_refl,
}
use tiny_tcp_over_tun.Parser.{Parser, pure, remove_prefix, ◌>>◌}
use tiny_tcp_over_tun.Parser.Serializer
use tiny_tcp_over_tun.Parser.Serializer.{Serializer, ◌|>◌, new, bytes_of, finish}
use tiny_tcp_over_tun.Parser.Holds.{Holds}
use tiny_tcp_over_tun.Parser.Gives.{
  Gives, pure-Gives, and_then, has_error-Gives, remove_prefix-Gives, must_hold, must_fail,
}
use tiny_tcp_over_tun.Parser.Integers.{octet-Gives, short-Gives, word-Gives}
use tiny_tcp_over_tun.Parser.Written.{Appends, append_then, integer-Appends, done}
use tiny_tcp_over_tun.Ipv4.{
  Ipv4Header, first_byte, fo_val, write_fields, compute_checksum, parse_fields, compare_checksum,
  check_header, parse_header,
}

-- The bytes of a header, in front of others.
abbrev pub header_bytes : Ipv4Header → List ℕ → List ℕ
header_bytes h rest =
    bytes_of 1 (first_byte h)
    ++ (bytes_of 1 h.tos
        ++ (bytes_of 2 h.len
            ++ (bytes_of 2 h.id
                ++ (bytes_of 2 (fo_val h)
                    ++ (bytes_of 1 h.ttl
                        ++ (bytes_of 1 h.proto
                            ++ (bytes_of 2 h.cksum
                                ++ (bytes_of 4 h.src ++ (bytes_of 4 h.dst ++ rest)))))))))

-- An IPv4 header without options, its fields in the range of their types.
pub record IsHeader (h : Ipv4Header) : Type 0 where
  pub ver : h.ver ≡ 4
  pub hlen : h.hlen ≡ 5
  pub tos : h.tos < 2 ^ 8
  pub len : h.len < 2 ^ 16
  pub id : h.id < 2 ^ 16
  pub offset : h.offset < 2 ^ 13
  pub ttl : h.ttl < 2 ^ 8
  pub proto : h.proto < 2 ^ 8
  pub cksum : h.cksum < 2 ^ 16
  pub src : h.src < 2 ^ 32
  pub dst : h.dst < 2 ^ 32

first_byte_range : (h : Ipv4Header) → first_byte h < 2 ^ 8
unfolding first_byte
first_byte_range h = omega arith

fo_val_range : (h : Ipv4Header) → fo_val h < 2 ^ 16
unfolding fo_val
fo_val_range h = ground arith

-- The packed fields come apart again.
abbrev unpacked : Ipv4Header → Ipv4Header
unpacked h = record h {
  ver = first_byte h / 2 ^ 4;
  hlen = first_byte h % 2 ^ 4;
  df = (fo_val h / 0x4000) % 2 == 1;
  mf = (fo_val h / 0x2000) % 2 == 1;
  offset = fo_val h % 0x2000;
}

unpacked-eq : (h : Ipv4Header) → IsHeader h → unpacked h ≡ h
unfolding first_byte fo_val
unpacked-eq h ok =
    let ver : first_byte h / 2 ^ 4 ≡ h.ver = omega (arith, ok.ver, ok.hlen) in
    let hlen : first_byte h % 2 ^ 4 ≡ h.hlen = omega (arith, ok.ver, ok.hlen) in
    λ i. record h { ver = ver i; hlen = hlen i; df = df h.df i; mf = mf h.mf i; offset = offset i }
  where
    df :
        (b : Bool)
        → (((if b then 0x4000 else 0) + (if h.mf then 0x2000 else 0) + h.offset % 0x2000) / 0x4000)
              % 2
            == 1
          ≡ b
    df b = ground arith

    mf :
        (b : Bool)
        → (((if h.df then 0x4000 else 0) + (if b then 0x2000 else 0) + h.offset % 0x2000) / 0x2000)
              % 2
            == 1
          ≡ b
    mf b = ground arith

    offset : fo_val h % 0x2000 ≡ h.offset
    offset = ground (arith, ok.offset)

parse_fields-Gives :
    (h old : Ipv4Header) (rest : List ℕ) (p : Parser)
    → IsHeader h
    → Holds p (header_bytes h rest)
    → Gives (parse_fields old) p h rest
unfolding parse_fields
parse_fields-Gives h old rest p ok k =
    and_then _ _ (octet-Gives (first_byte h) 0 _ p (first_byte_range h) k) (λ p1 k1.
      and_then _ _ (octet-Gives h.tos old.tos _ p1 ok.tos k1) (λ p2 k2.
        and_then _ _ (short-Gives h.len old.len _ p2 ok.len k2) (λ p3 k3.
          and_then _ _ (short-Gives h.id old.id _ p3 ok.id k3) (λ p4 k4.
            and_then _ _ (short-Gives (fo_val h) 0 _ p4 (fo_val_range h) k4) (λ p5 k5.
              and_then _ _ (octet-Gives h.ttl old.ttl _ p5 ok.ttl k5) (λ p6 k6.
                and_then _ _ (octet-Gives h.proto old.proto _ p6 ok.proto k6) (λ p7 k7.
                  and_then _ _ (short-Gives h.cksum old.cksum _ p7 ok.cksum k7) (λ p8 k8.
                    and_then _ _ (word-Gives h.src old.src _ p8 ok.src k8) (λ p9 k9.
                      and_then _ _ (word-Gives h.dst old.dst _ p9 ok.dst k9) (λ q k10.
                        transport (λ i. Gives (pure (unpacked h)) q (unpacked-eq h ok i) rest)
                          (pure-Gives (unpacked h) q rest k10)))))))))))

compare_checksum-Gives :
    (h : Ipv4Header) (rest : List ℕ) (p : Parser)
    → compute_checksum h ≡ some h
    → Holds p rest
    → Gives (compare_checksum h.cksum (compute_checksum h)) p h rest
unfolding compare_checksum pure
compare_checksum-Gives h rest p sum k =
    transport (λ i. Gives (compare_checksum h.cksum (sym sum i)) p h rest)
      (record { after = p; result = rw (==_refl h.cksum) refl; holds = k })

check_header-Gives :
    (h : Ipv4Header) (rest : List ℕ) (p : Parser)
    → IsHeader h
    → compute_checksum h ≡ some h
    → Holds p rest
    → Gives (check_header h) p h rest
unfolding check_header ◌>>◌
check_header-Gives h rest p ok sum k =
    and_then _ _ (must_hold (h.ver == 4) p rest (ground (arith, ok.ver)) k) (λ q k1.
      and_then _ _ (must_fail (ltb h.hlen 5) q rest (ground (arith, ok.hlen)) k1) (λ r k2.
        and_then _ _ (has_error-Gives r rest k2)
          (λ s k3. and_then _ _ (options s k3) (λ t k4. compare_checksum-Gives h rest t sum k4))))
  where
    none_left : h.hlen * 4 - 20 ≡ 0
    none_left = omega (arith, ok.hlen)

    options : (s : Parser) → Holds s rest → Gives (remove_prefix (h.hlen * 4 - 20)) s tt rest
    options s k =
        transport (λ i. Gives (remove_prefix (sym none_left i)) s tt rest)
          (remove_prefix-Gives 0 s rest (omega arith) k)

-- Reading the bytes of a header that has its checksum gives that header and leaves the rest.
pub parse_header-Gives :
    (h old : Ipv4Header) (rest : List ℕ) (p : Parser)
    → IsHeader h
    → compute_checksum h ≡ some h
    → Holds p (header_bytes h rest)
    → Gives (parse_header old) p h rest
unfolding parse_header
parse_header-Gives h old rest p ok sum k =
    and_then _ _ (parse_fields-Gives h old rest p ok k)
      (λ q l. check_header-Gives h rest q ok sum l)

pub write_fields-Appends :
    (h : Ipv4Header) (s : Serializer) → Appends s (write_fields h s) (header_bytes h [])
unfolding write_fields
write_fields-Appends h s =
    let s1 = Serializer.integer 1 (first_byte h) s in
    let s2 = Serializer.integer 1 h.tos s1 in
    let s3 = Serializer.integer 2 h.len s2 in
    let s4 = Serializer.integer 2 h.id s3 in
    let s5 = Serializer.integer 2 (fo_val h) s4 in
    let s6 = Serializer.integer 1 h.ttl s5 in
    let s7 = Serializer.integer 1 h.proto s6 in
    let s8 = Serializer.integer 2 h.cksum s7 in
    let s9 = Serializer.integer 4 h.src s8 in
    let s10 = Serializer.integer 4 h.dst s9 in
    append_then s s1 s10 _ _ (integer-Appends 1 (first_byte h) s) (
      append_then s1 s2 s10 _ _ (integer-Appends 1 h.tos s1) (
        append_then s2 s3 s10 _ _ (integer-Appends 2 h.len s2) (
          append_then s3 s4 s10 _ _ (integer-Appends 2 h.id s3) (
            append_then s4 s5 s10 _ _ (integer-Appends 2 (fo_val h) s4) (
              append_then s5 s6 s10 _ _ (integer-Appends 1 h.ttl s5) (
                append_then s6 s7 s10 _ _ (integer-Appends 1 h.proto s6) (
                  append_then s7 s8 s10 _ _ (integer-Appends 2 h.cksum s7) (
                    append_then s8 s9 s10 _ _ (integer-Appends 4 h.src s8)
                      (append_then s9 s10 s10 _ _ (integer-Appends 4 h.dst s9) (done s10))))))))))
