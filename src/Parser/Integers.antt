-- ===== src/Parser/Integers.antt =====
-- Integers of one, two and four bytes: `Parser::integer` undoes `Serializer::integer` (util/parser.hh).
use tiny_tcp_over_tun.Common.{ℕ, ◌^◌, ◌<◌, ◌≡◌, List, ◌++◌, arith, transport}
use tiny_tcp_over_tun.Parser.{Parser, integer}
use tiny_tcp_over_tun.Parser.Serializer.{bytes_of}
use tiny_tcp_over_tun.Parser.Holds.{Holds}
use tiny_tcp_over_tun.Parser.Gives.{Gives, value_of, integer_of}

pub octet-Gives :
    (n old : ℕ) (rest : List ℕ) (p : Parser)
    → n < 2 ^ 8
    → Holds p (bytes_of 1 n ++ rest)
    → Gives (integer 1 old) p n rest
unfolding bytes_of
octet-Gives n old rest p lt h =
    let e : value_of 1 0 (bytes_of 1 n) ≡ n = omega arith in
    transport (λ i. Gives (integer 1 old) p (e i) rest) (integer_of old (bytes_of 1 n) rest p h)

pub short-Gives :
    (n old : ℕ) (rest : List ℕ) (p : Parser)
    → n < 2 ^ 16
    → Holds p (bytes_of 2 n ++ rest)
    → Gives (integer 2 old) p n rest
unfolding bytes_of
short-Gives n old rest p lt h =
    let e : value_of 2 0 (bytes_of 2 n) ≡ n = omega arith in
    transport (λ i. Gives (integer 2 old) p (e i) rest) (integer_of old (bytes_of 2 n) rest p h)

pub word-Gives :
    (n old : ℕ) (rest : List ℕ) (p : Parser)
    → n < 2 ^ 32
    → Holds p (bytes_of 4 n ++ rest)
    → Gives (integer 4 old) p n rest
unfolding bytes_of
word-Gives n old rest p lt h =
    let e : value_of 4 0 (bytes_of 4 n) ≡ n = omega arith in
    transport (λ i. Gives (integer 4 old) p (e i) rest) (integer_of old (bytes_of 4 n) rest p h)
