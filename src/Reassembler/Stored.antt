-- ===== src/Reassembler/Stored.antt =====
-- The representation invariant of `Reassembler` (src/reassembler.hh), relative to the byte stream
-- from which the substrings are cut: `source i` is its byte at index `i`.
use tiny_tcp_over_tun.Common.{
  ℕ, suc, ◌+◌, ◌-◌, ◌≤◌, ◌<◌, ◌≡◌, ◌⊎◌, List, [], length, true, false, u64, slice,
}
use tiny_tcp_over_tun.ByteStream.{ByteStream}
use tiny_tcp_over_tun.ByteStream.Invariant.{IsValid}
use tiny_tcp_over_tun.Reassembler.{Reassembler, Segment}
use tiny_tcp_over_tun.Reassembler.Segments.{IsSorted, IsBelow, Covers, total}
use tiny_tcp_over_tun.Reassembler.Ring.Collect.{behind}

-- The output stream: its counters have not wrapped, and it holds bytes of the source.
pub record Written (source : ℕ → ℕ) (s : ByteStream) : Type 0 where
  pub valid : IsValid s
  pub ordered : s.total_poped ≤ s.total_pushed
  pub window_lt : s.total_poped + s.capacity + 1 < u64
  pub written : s.buffer ≡ slice source s.total_poped (length s.buffer)

-- The ring and the map `segs`, all of whose segments start at `lo` or later.
pub record Ringed (source : ℕ → ℕ) (lo : ℕ) (segs : List Segment) (r : Reassembler) : Type 0 where
  pub started : r.ring_initialized ≡ true
  pub size : r.ring_size ≡ suc r.output.capacity
  pub length_ring : length r.ring_buffer ≡ r.ring_size
  pub front_lt : r.front_pos < r.ring_size
  pub unassembled : r.first_unassembled_index ≡ r.output.total_pushed
  pub sorted : IsSorted lo segs
  pub below : IsBelow (r.output.total_poped + r.output.capacity) segs
  pub counted : r.pending_bytes ≡ total segs
  pub holds :
      (i : ℕ)
      → Covers segs i
      → behind r.ring_size r.front_pos r.ring_buffer (i - r.first_unassembled_index) ≡ source i

-- Between calls: the next byte to write is missing, and nothing is stored before the ring exists.
pub record Inv (source : ℕ → ℕ) (r : Reassembler) : Type 0 where
  pub stream : Written source r.output
  pub ring :
      ((r.ring_initialized ≡ false) × (r.filled_segments ≡ []) × (r.pending_bytes ≡ 0))
      ⊎ Ringed source (suc r.output.total_pushed) r.filled_segments r

-- The bytes that have arrived: those written to the stream, and those that are stored.
abbrev pub Known : Reassembler → ℕ → Type 0
Known r i = (i < r.output.total_pushed) ⊎ Covers r.filled_segments i
