-- ===== src/Parser/Buffers.antt =====
-- `Parser::BufferList` of util/parser.hh and util/parser.cc: owned strings, the first `skip` bytes of
-- the front one already read.
use tiny_tcp_over_tun.Common.{
  ℕ, ◌+◌, ◌-◌, min, List, [], ◌∷◌, length, take, drop, Bool, Option, none, some, ltb, leb, ◌==◌,
  if◌then◌else◌, sub64, map,
}
use tiny_tcp_over_tun.Ref.{Ref, owned, is_borrowed, get}

pub record BufferList : Type 0 where
  pub size : ℕ
  pub buffer_ : List (List ℕ)
  pub skip : ℕ

unfoldable pub total_size : List (List ℕ) → ℕ
total_size [] = 0
total_size (b ∷ bs) = length b + total_size bs

-- The loop of the constructor; `none`: the exception for a borrowed string.
unfoldable pub take_owned : List (Ref (List ℕ)) → Option (List (List ℕ))
take_owned [] = some []
take_owned (r ∷ refs) =
    let rest : Option (List (List ℕ)) = elim (take_owned refs) [
      | none ↦ none
      | some bs ↦ some (get r ∷ bs)
    ] in
    if is_borrowed r then none else rest

unfoldable pub make : List (Ref (List ℕ)) → Option BufferList
unfolding take_owned total_size
make buffers = elim (take_owned buffers) [
  | none ↦ none
  | some bs ↦ some (record { size = total_size bs; buffer_ = bs; skip = 0 })
]

unfoldable pub empty : BufferList → Bool
empty b = b.size == 0

-- `none`: the exception for an empty list.
unfoldable pub peek : BufferList → Option (List ℕ)
peek b = elim b.buffer_ [ [] ↦ none | front ∷ rest ↦ some (drop b.skip front) ]

-- The loop of `remove_prefix`. A front that is not used up has `len` bytes or more to give, and the
-- loop ends with it.
unfoldable pub pop_prefix : ℕ → ℕ → ℕ → List (List ℕ) → BufferList
pop_prefix len skip size [] = record { size = size; buffer_ = []; skip = skip }
pop_prefix len skip size (front ∷ rest) =
    let to_pop_now = min len (length (drop skip front)) in
    let next = pop_prefix (len - to_pop_now) 0 (sub64 size to_pop_now) rest in
    if len == 0
    then record { size = size; buffer_ = front ∷ rest; skip = skip }
    else if skip + to_pop_now == length front
    then next
    else record { size = sub64 size to_pop_now; buffer_ = front ∷ rest; skip = skip + to_pop_now }

unfoldable pub remove_prefix : ℕ → BufferList → BufferList
unfolding pop_prefix
remove_prefix len b = pop_prefix len b.skip b.size b.buffer_

-- The loops of `truncate`: the strings that are kept, the last one cut.
unfoldable keep_prefix : ℕ → ℕ → List (List ℕ) → List (List ℕ)
keep_prefix len size_so_far [] = []
keep_prefix len size_so_far (front ∷ rest) =
    let next = keep_prefix len (size_so_far + length front) rest in
    if ltb (size_so_far + length front) len
    then front ∷ next
    else if size_so_far + length front == len
    then front ∷ []
    else take (len - size_so_far) front ∷ []

unfoldable pub truncate : ℕ → BufferList → BufferList
unfolding keep_prefix
truncate len b =
    if leb b.size len
    then b
    else if len == 0
    then record b { buffer_ = []; size = 0 }
    else record b { buffer_ = keep_prefix len 0 b.buffer_; size = len }

-- What is left, as owned strings. The list keeps its `size` and `skip`. The source leaves the strings
-- that it has moved from in the list, with contents that no caller reads; here they are gone.
unfoldable pub dump_all : BufferList → List (Ref (List ℕ)) × BufferList
unfolding empty
dump_all b =
    let out : List (Ref (List ℕ)) = elim b.buffer_ [
      | [] ↦ []
      | front ∷ rest ↦ owned (if b.skip == 0 then front else drop b.skip front) ∷ map owned rest
    ] in
    if empty b then ([], b) else (out, record b { buffer_ = [] })

-- Views of what is left.
unfoldable pub buffer : BufferList → List (List ℕ)
unfolding empty
buffer b =
    let views : List (List ℕ) = elim b.buffer_ [
      | [] ↦ []
      | front ∷ rest ↦ drop b.skip front ∷ rest
    ] in
    if empty b then [] else views
