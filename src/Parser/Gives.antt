-- ===== src/Parser/Gives.antt =====
-- Steps of a parse (util/parser.hh) that succeed: what they give and what bytes they leave.
use tiny_tcp_over_tun.Common.{
  ℕ, ◌+◌, ◌*◌, ◌%◌, ◌^◌, ◌≤◌, ◌≡◌, List, [], ◌∷◌, ◌++◌, length, drop, Bool, true, false, Option,
  none, some, arith, refl, ap, sym, ◌∙◌, le→ltb_false, if◌then◌else◌, transport, length-append,
}
use tiny_tcp_over_tun.Parser.{
  Parser, Parse, pure, ◌>>=◌, ◌>>◌, check_size, has_error, set_error, remove_prefix, next_byte,
  read_bytes, integer,
}
use tiny_tcp_over_tun.Parser.Buffers
use tiny_tcp_over_tun.Parser.Holds.{Holds, peek-Has, remove_prefix-Has}

-- The step returns `a` and leaves `rest`.
pub record Gives {A : Type 0} (m : Parse A) (p : Parser) (a : A) (rest : List ℕ) : Type 0 where
  pub after : Parser
  pub result : m p ≡ some (a, after)
  pub holds : Holds after rest

pub pure-Gives :
    {A : Type 0} (a : A) (p : Parser) (bytes : List ℕ) → Holds p bytes → Gives (pure a) p a bytes
unfolding pure
pure-Gives a p bytes h = record { after = p; result = refl; holds = h }

pub and_then :
    {A B : Type 0} (m : Parse A) (f : A → Parse B) {p : Parser} {a : A} {b : B} {rest last : List ℕ}
    → Gives m p a rest
    → ((q : Parser) → Holds q rest → Gives (f a) q b last)
    → Gives (m >>= f) p b last
unfolding ◌>>=◌
and_then m f g k =
    let n = k g.after g.holds in
    record {
      after = n.after;
      result =
          ap (λ o. elim o as (λ _. Option (_ × Parser)) [ none ↦ none | some r ↦ f r.0 r.1 ])
            g.result
          ∙ n.result;
      holds = n.holds;
    }

pub next_byte-Gives :
    (p : Parser) (x : ℕ) (rest : List ℕ) → Holds p (x ∷ rest) → Gives next_byte p x rest
unfolding next_byte
next_byte-Gives p x rest h =
    let (view, e) = peek-Has p.input x rest h.has in
    record {
      after = record p { input = Buffers.remove_prefix 1 p.input };
      result = rw (e, next_byte);
      holds = record {
        fine = h.fine;
        has = remove_prefix-Has 1 p.input (x ∷ rest) h.has (omega arith);
      };
    }

-- What the loop of `integer` makes of bytes.
abbrev pub value_of : ℕ → ℕ → List ℕ → ℕ
value_of size out [] = out
value_of size out (x ∷ bytes) = value_of size ((out * 2 ^ 8) % 2 ^ (8 * size) + x) bytes

pub read_bytes-Gives :
    (size out : ℕ) (bytes rest : List ℕ) (p : Parser)
    → Holds p (bytes ++ rest)
    → Gives (read_bytes (length bytes) size out) p (value_of size out bytes) rest
unfolding read_bytes
read_bytes-Gives size out [] rest p h = pure-Gives out p rest h
read_bytes-Gives size out (x ∷ bytes) rest p h =
    and_then _ _ (next_byte-Gives p x (bytes ++ rest) h)
      (λ q k. read_bytes-Gives size ((out * 2 ^ 8) % 2 ^ (8 * size) + x) bytes rest q k)

check_size-Gives :
    (size : ℕ) (p : Parser) (bytes : List ℕ)
    → size ≤ length bytes
    → Holds p bytes
    → Gives (check_size size) p tt bytes
unfolding check_size
check_size-Gives size p bytes le h = record {
  after = p;
  result =
      let ok : size ≤ p.input.size = omega (arith, h.has.size) in
      rw (le→ltb_false p.input.size size ok, check_size);
  holds = h;
}

pub has_error-Gives : (p : Parser) (bytes : List ℕ) → Holds p bytes → Gives has_error p false bytes
unfolding has_error
has_error-Gives p bytes h = record { after = p; result = ap (λ e. some (e, p)) h.fine; holds = h }

-- An integer is read from as many bytes as it has.
pub integer_of :
    (old : ℕ) (bytes rest : List ℕ) (p : Parser)
    → Holds p (bytes ++ rest)
    → Gives (integer (length bytes) old) p (value_of (length bytes) 0 bytes) rest
unfolding integer ◌>>◌
integer_of old bytes rest p h =
    and_then _ _
      (check_size-Gives (length bytes) p (bytes ++ rest) (omega (arith, length-append bytes rest))
        h)
      (λ q k.
        and_then _ _ (has_error-Gives q (bytes ++ rest) k)
          (λ s l. read_bytes-Gives (length bytes) 0 bytes rest s l))

pub remove_prefix-Gives :
    (n : ℕ) (p : Parser) (bytes : List ℕ)
    → n ≤ length bytes
    → Holds p bytes
    → Gives (remove_prefix n) p tt (drop n bytes)
unfolding remove_prefix
remove_prefix-Gives n p bytes le h = record {
  after = record p { input = Buffers.remove_prefix n p.input };
  result = refl;
  holds = record { fine = h.fine; has = remove_prefix-Has n p.input bytes h.has le };
}

-- A test of the code that ends in `set_error` when it fails, or when it holds.
pub must_hold :
    (b : Bool) (p : Parser) (bytes : List ℕ)
    → b ≡ true
    → Holds p bytes
    → Gives (if b then pure tt else set_error) p tt bytes
must_hold b p bytes e h =
    transport (λ i. Gives (if sym e i then pure tt else set_error) p tt bytes)
      (pure-Gives tt p bytes h)

pub must_fail :
    (b : Bool) (p : Parser) (bytes : List ℕ)
    → b ≡ false
    → Holds p bytes
    → Gives (if b then set_error else pure tt) p tt bytes
must_fail b p bytes e h =
    transport (λ i. Gives (if sym e i then set_error else pure tt) p tt bytes)
      (pure-Gives tt p bytes h)
