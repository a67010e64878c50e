-- ===== src/ByteStream.antt =====
-- src/byte_stream.hh and src/byte_stream.cc: the in-memory pipe between a writer and a reader. The
-- classes `Writer` and `Reader` add no state to `ByteStream`, so one record stands for the three.
pub mod Invariant
pub mod History
pub mod Read
use tiny_tcp_over_tun.Common.{
  ℕ, List, [], ◌++◌, ◌&&◌, Bool, true, false, length, take, drop, leb, ◌==◌, if◌then◌else◌, add64,
  sub64,
}

-- A byte of the `std::string` buffer is a number; nothing here computes with it.
pub record ByteStream : Type 0 where
  pub capacity : ℕ
  pub error : Bool
  pub buffer : List ℕ
  pub total_pushed : ℕ
  pub total_poped : ℕ
  pub closed : Bool

unfoldable pub init : ℕ → ByteStream
init capacity = record {
  capacity = capacity;
  error = false;
  buffer = [];
  total_pushed = 0;
  total_poped = 0;
  closed = false;
}

unfoldable pub set_error : ByteStream → ByteStream
set_error s = record s { error = true }

unfoldable pub has_error : ByteStream → Bool
has_error s = s.error

-- `Writer::available_capacity`
unfoldable pub available_capacity : ByteStream → ℕ
available_capacity s = sub64 s.capacity (sub64 s.total_pushed s.total_poped)

-- `Writer::push`: `append( data, 0, max_len )` appends the first `max_len` bytes.
unfoldable pub push : List ℕ → ByteStream → ByteStream
unfolding available_capacity
push data' s =
    if leb (length data') (available_capacity s)
    then record s { buffer = s.buffer ++ data'; total_pushed = add64 s.total_pushed (length data') }
    else record s {
      buffer = s.buffer ++ take (available_capacity s) data';
      total_pushed = add64 s.total_pushed (available_capacity s);
    }

-- `Writer::close`
unfoldable pub close : ByteStream → ByteStream
close s = record s { closed = true }

unfoldable pub is_closed : ByteStream → Bool
is_closed s = s.closed

unfoldable pub bytes_pushed : ByteStream → ℕ
bytes_pushed s = s.total_pushed

-- `Reader::peek`
unfoldable pub peek : ByteStream → List ℕ
peek s = s.buffer

-- `Reader::pop`: `erase( 0, len )` stops at the end of the buffer, the counter does not.
unfoldable pub pop : ℕ → ByteStream → ByteStream
pop len s = record s { buffer = drop len s.buffer; total_poped = add64 s.total_poped len }

-- `Reader::is_finished`
unfoldable pub is_finished : ByteStream → Bool
is_finished s = s.closed && (s.total_poped == s.total_pushed)

unfoldable pub bytes_buffered : ByteStream → ℕ
bytes_buffered s = sub64 s.total_pushed s.total_poped

unfoldable pub bytes_popped : ByteStream → ℕ
bytes_popped s = s.total_poped
