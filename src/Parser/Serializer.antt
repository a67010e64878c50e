-- ===== src/Parser/Serializer.antt =====
-- `Serializer` of util/parser.hh and util/parser.cc: a list of strings, and one that still grows.
use tiny_tcp_over_tun.Common.{
  ℕ, zero, suc, ◌*◌, ◌/◌, ◌%◌, ◌^◌, List, [], ◌∷◌, ◌++◌, length, ◌==◌, if◌then◌else◌,
}
use tiny_tcp_over_tun.Ref.{Ref, owned, borrow, get}

pub record Serializer : Type 0 where
  pub output : List (Ref (List ℕ))
  pub buffer_ : List ℕ

abbrev pub new : Serializer
new = record { output = []; buffer_ = [] }

-- Calls one after the other.
infixl 2 ◌|>◌
abbrev pub ◌|>◌ : {A B : Type 0} → A → (A → B) → B
s |> f = f s

-- The loop of `integer`, with the `left` low bytes of `val` still to write.
unfoldable pub bytes_of : ℕ → ℕ → List ℕ
bytes_of zero val = []
bytes_of (suc left) val = ((val / 2 ^ (8 * left)) % 2 ^ 8) ∷ bytes_of left val

unfoldable pub integer : ℕ → ℕ → Serializer → Serializer
unfolding bytes_of
integer len val s = record s { buffer_ = s.buffer_ ++ bytes_of len val }

unfoldable pub flush : Serializer → Serializer
flush s =
    if length s.buffer_ == 0
    then s
    else record { output = s.output ++ owned s.buffer_ ∷ []; buffer_ = [] }

-- `buffer` for a `string` or a `Ref<string>`
unfoldable pub buffer : Ref (List ℕ) → Serializer → Serializer
unfolding flush
buffer buf s =
    if length (get buf) == 0
    then s
    else let t = flush s in record t { output = t.output ++ buf ∷ [] }

-- `buffer` for several strings: they are borrowed.
unfoldable pub buffers : List (Ref (List ℕ)) → Serializer → Serializer
unfolding buffer
buffers [] s = s
buffers (b ∷ bufs) s = buffers bufs (buffer (borrow b) s)

unfoldable pub finish : Serializer → List (Ref (List ℕ))
unfolding flush
finish s = (flush s).output
