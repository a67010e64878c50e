-- ===== src/Parser.antt =====
-- `Parser` of util/parser.hh and util/parser.cc: a cursor over a list of strings.
pub mod Buffers
pub mod Content
pub mod Gives
pub mod Ends
pub mod Holds
pub mod Written
pub mod Integers
pub mod Serializer
use tiny_tcp_over_tun.Common.{
  ℕ, zero, suc, ◌+◌, ◌-◌, ◌*◌, ◌%◌, ◌^◌, List, [], ◌∷◌, ◌++◌, length, take, Bool, true, false,
  Option, none, some, ltb, ◌==◌, if◌then◌else◌,
}
use tiny_tcp_over_tun.Ref.{Ref, release, get}
use tiny_tcp_over_tun.Parser.Buffers
use tiny_tcp_over_tun.Parser.Buffers.{BufferList}

pub record Parser : Type 0 where
  pub input : BufferList
  pub error : Bool

-- An operation on a `Parser`. `none` is an exception, or undefined behaviour.
abbrev pub Parse : Type 0 → Type 0
Parse A = Parser → Option (A × Parser)

unfoldable pub pure : {A : Type 0} → A → Parse A
pure a p = some (a, p)

infixl 5 ◌>>=◌ ◌>>◌
unfoldable pub ◌>>=◌ : {A B : Type 0} → Parse A → (A → Parse B) → Parse B
m >>= f = λ p. elim (m p) [ none ↦ none | some (a, q) ↦ f a q ]

unfoldable pub ◌>>◌ : {A B : Type 0} → Parse A → Parse B → Parse B
m >> k = m >>= λ _. k

unfoldable pub has_error : Parse Bool
has_error p = some (p.error, p)

unfoldable pub set_error : Parse (Unit {0})
set_error p = some (tt, record p { error = true })

unfoldable pub check_size : ℕ → Parse (Unit {0})
check_size size p = some (tt, if ltb p.input.size size then record p { error = true } else p)

unfoldable pub remove_prefix : ℕ → Parse (Unit {0})
remove_prefix n p = some (tt, record p { input = Buffers.remove_prefix n p.input })

unfoldable pub truncate : ℕ → Parse (Unit {0})
truncate len p = some (tt, record p { input = Buffers.truncate len p.input })

unfoldable pub all_remaining : Parse (List (Ref (List ℕ)))
all_remaining p =
    let (out, input) = Buffers.dump_all p.input in some (out, record p { input = input })

unfoldable pub buffer : Parse (List (List ℕ))
buffer p = some (Buffers.buffer p.input, p)

-- `input_.peek().front()`, and the removal of that byte. `front()` of an empty view is undefined.
unfoldable pub next_byte : Parse ℕ
next_byte p = elim (Buffers.peek p.input) [
  | none ↦ none
  | some [] ↦ none
  | some (x ∷ view) ↦ some (x, record p { input = Buffers.remove_prefix 1 p.input })
]

-- The loop of `integer` for a type of `size` bytes, with `left` rounds to go. `|=` adds the byte,
-- since the eight low bits are zero. For one byte there is just one round.
unfoldable pub read_bytes : ℕ → ℕ → ℕ → Parse ℕ
read_bytes zero size out = pure out
read_bytes (suc left) size out =
    next_byte >>= λ x. read_bytes left size ((out * 2 ^ 8) % 2 ^ (8 * size) + x)

-- `integer( out )`, which leaves `out` as it is after an error.
unfoldable pub integer : ℕ → ℕ → Parse ℕ
integer size out = do
  check_size size
  error ← has_error
  if error then pure out else read_bytes size size 0

-- The loop of `string`: `left` bytes are still to be copied, and `out` has been.
unfoldable pub copy_string : ℕ → ℕ → List ℕ → Parse (List ℕ)
copy_string zero left out p = none
copy_string (suc fuel) left out p =
    let rest : Option (List ℕ × Parser) = elim (Buffers.peek p.input) [
      | none ↦ none
      | some bytes ↦
          let view = take left bytes in
          copy_string fuel (left - length view) (out ++ view)
            (record p { input = Buffers.remove_prefix (length view) p.input })
    ] in
    if left == 0 then some (out, p) else rest

-- `string( out )` for `size` bytes. A round copies at least one byte, or the loop does not end.
unfoldable pub string : ℕ → List ℕ → Parse (List ℕ)
string size out = do
  check_size size
  error ← has_error
  if error then pure out else copy_string (suc size) size []

unfoldable pub concatenate : List (Ref (List ℕ)) → List ℕ
unfolding get
concatenate [] = []
concatenate (r ∷ refs) = get r ++ concatenate refs

unfoldable pub concatenate_all_remaining : Parse (List ℕ)
concatenate_all_remaining = do concat ← all_remaining; pure (concatenate concat)
