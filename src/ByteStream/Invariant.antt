-- ===== src/ByteStream/Invariant.antt =====
-- The representation invariant of `ByteStream` (src/byte_stream.cc), stated so that it survives the
-- wrap of the 64-bit counters.
use tiny_tcp_over_tun.Common.{
  ℕ, ◌-◌, ◌≤◌, ◌<◌, ◌≡◌, ◌++◌, List, length, take, drop, length-append, length-take, length-drop,
  take-of_le, arith, u64, sub64, true, ◌↔◌,
}
use tiny_tcp_over_tun.ByteStream.{
  ByteStream, init, push, pop, close, available_capacity, bytes_buffered, is_finished,
}

pub record IsValid (s : ByteStream) : Type 0 where
  pub counted : length s.buffer ≡ sub64 s.total_pushed s.total_poped
  pub fits : length s.buffer ≤ s.capacity
  pub capacity_lt : s.capacity < u64
  pub pushed_lt : s.total_pushed < u64
  pub poped_lt : s.total_poped < u64

-- A new stream is valid.
pub init-IsValid : (capacity : ℕ) → capacity < u64 → IsValid (init capacity)
unfolding init
init-IsValid capacity h = omega arith

-- The two public counts: what is buffered and what still fits make up the capacity.
pub available_capacity-eq :
    (s : ByteStream) → IsValid s → available_capacity s ≡ s.capacity - length s.buffer
unfolding available_capacity
available_capacity-eq s v = omega arith

pub bytes_buffered-eq : (s : ByteStream) → IsValid s → bytes_buffered s ≡ length s.buffer
unfolding bytes_buffered
bytes_buffered-eq s v = omega arith

-- `push` appends exactly the bytes that fit.
pub buffer-push :
    (bytes : List ℕ) (s : ByteStream)
    → (push bytes s).buffer ≡ s.buffer ++ take (available_capacity s) bytes
unfolding push
buffer-push bytes s = ground (arith, take-of_le (available_capacity s) bytes)

-- `push` keeps the invariant of a valid stream, however many bytes it is given.
pub push-IsValid : (bytes : List ℕ) (s : ByteStream) → IsValid s → IsValid (push bytes s)
unfolding push
push-IsValid bytes s v = ground (
  arith,
  available_capacity-eq s v,
  length-append s.buffer bytes,
  length-append s.buffer (take (available_capacity s) bytes),
  length-take (available_capacity s) bytes,
)

-- `pop` keeps the invariant of a valid stream as long as it removes no more than is buffered.
pub pop-IsValid :
    (len : ℕ) (s : ByteStream) → IsValid s → len ≤ bytes_buffered s → IsValid (pop len s)
unfolding pop
pop-IsValid len s v h =
    let e : len ≤ length s.buffer = omega (arith, bytes_buffered-eq s v) in
    let d : length (drop len s.buffer) ≡ length s.buffer - len = length-drop len s.buffer in
    record {
      counted = omega arith;
      fits = omega arith;
      capacity_lt = v.capacity_lt;
      pushed_lt = v.pushed_lt;
      poped_lt = omega arith;
    }

pub close-IsValid : (s : ByteStream) → IsValid s → IsValid (close s)
unfolding close
close-IsValid s v = omega arith

-- A valid stream is finished exactly when it is closed and nothing is left in the buffer.
pub is_finished_iff :
    (s : ByteStream)
    → IsValid s
    → (is_finished s ≡ true) ↔ ((s.closed ≡ true) × (length s.buffer ≡ 0))
unfolding is_finished
is_finished_iff s v = ground arith
