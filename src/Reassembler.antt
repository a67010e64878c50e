-- ===== src/Reassembler.antt =====
-- src/reassembler.hh and src/reassembler.cc: substrings of a byte stream, in any order and with
-- overlaps, are put together in a ring buffer and written to a `ByteStream`.
use tiny_tcp_over_tun.Common.{
  ℕ, zero, suc, ◌+◌, ◌-◌, ◌%◌, min, max, List, [], ◌∷◌, ◌++◌, length, take, drop, replicate, Bool,
  true, false, not, ◌&&◌, ◌||◌, ltb, leb, ◌==◌, if◌then◌else◌, add64, sub64,
}
use tiny_tcp_over_tun.ByteStream
use tiny_tcp_over_tun.ByteStream.{ByteStream}
pub mod Segments
pub mod Ring
pub mod Stored
pub mod Flush
pub mod Prepare
pub mod Store
pub mod Settle
pub mod Clip
pub mod Insert
pub mod History
pub mod Errors

-- `[start, end)`, an entry of the map `filled_segments_`.
abbrev pub Segment : Type 0
Segment = ℕ × ℕ

pub record Reassembler : Type 0 where
  pub output : ByteStream
  pub first_unpopped_index : ℕ
  pub first_unassembled_index : ℕ
  pub first_unacceptable_index : ℕ
  pub eof_index : ℕ
  pub eof_received : Bool
  pub ring_initialized : Bool
  pub total_capacity : ℕ
  pub ring_size : ℕ
  pub front_pos : ℕ
  pub ring_buffer : List ℕ
  pub filled_segments : List Segment
  pub pending_bytes : ℕ

unfoldable pub init : ByteStream → Reassembler
init output = record {
  output = output;
  first_unpopped_index = 0;
  first_unassembled_index = 0;
  first_unacceptable_index = 0;
  eof_index = 0;
  eof_received = false;
  ring_initialized = false;
  total_capacity = 0;
  ring_size = 0;
  front_pos = 0;
  ring_buffer = [];
  filled_segments = [];
  pending_bytes = 0;
}

unfoldable pub count_bytes_pending : Reassembler → ℕ
count_bytes_pending r = r.pending_bytes

unfoldable pub initialize_ring : ℕ → Reassembler → Reassembler
initialize_ring capacity r = record r {
  total_capacity = capacity;
  ring_size = add64 capacity 1;
  ring_buffer = replicate (add64 capacity 1) 0;
  front_pos = 0;
  ring_initialized = true;
}

-- `std::copy_n` of `bytes` to the place `pos` of a vector.
unfoldable pub write_at : List ℕ → ℕ → List ℕ → List ℕ
write_at [] pos bytes = []
write_at (x ∷ xs) zero [] = x ∷ xs
write_at (x ∷ xs) zero (b ∷ bytes) = b ∷ write_at xs zero bytes
write_at (x ∷ xs) (suc pos) bytes = x ∷ write_at xs pos bytes

-- The loop of `copy_into_ring`; `bytes` are the `remaining` ones, from `data + copied` on.
unfoldable pub copy_loop : ℕ → ℕ → ℕ → List ℕ → List ℕ → List ℕ
copy_loop zero ring_size pos bytes ring = ring
copy_loop (suc fuel) ring_size pos bytes ring =
    let chunk = min (length bytes) (ring_size - pos) in
    let rest =
      copy_loop fuel ring_size ((pos + chunk) % ring_size) (drop chunk bytes)
        (write_at ring pos (take chunk bytes)) in
    if length bytes == 0 then ring else rest

-- A chunk is never empty, so one round for each byte and one for the last test are enough.
unfoldable pub copy_into_ring : ℕ → List ℕ → Reassembler → Reassembler
unfolding copy_loop
copy_into_ring absolute_index bytes r =
    if not r.ring_initialized || (length bytes == 0) then r else record r {
      ring_buffer =
          copy_loop (suc (length bytes)) r.ring_size
            ((r.front_pos + sub64 absolute_index r.first_unassembled_index) % r.ring_size) bytes
            r.ring_buffer;
    }

-- `std::map::lower_bound( start )`: the entries before the iterator, and those from it on.
unfoldable pub lower_bound : ℕ → List Segment → List Segment × List Segment
lower_bound start [] = ([], [])
lower_bound start ((a, b) ∷ segs) =
    let (before, it) = lower_bound start segs in
    if ltb a start then ((a, b) ∷ before, it) else ([], (a, b) ∷ segs)

-- One step back, if the entry before the iterator reaches `start`.
unfoldable pub step_back : ℕ → List Segment → List Segment → List Segment × List Segment
step_back start [] it = ([], it)
step_back start ((a, b) ∷ []) it = if leb start b then ([], (a, b) ∷ it) else ((a, b) ∷ [], it)
step_back start (p ∷ q ∷ before) it =
    let (before', it') = step_back start (q ∷ before) it in (p ∷ before', it')

-- The state of the merging loop when it ends: the entries that it passed over, those that it did
-- not reach, the merged interval and the count.
pub record Merged : Type 0 where
  pub passed : List Segment
  pub rest : List Segment
  pub new_start : ℕ
  pub new_end : ℕ
  pub pending : ℕ

unfoldable pub merge : ℕ → ℕ → ℕ → List Segment → Merged
merge new_start new_end pending [] = record {
  passed = [];
  rest = [];
  new_start = new_start;
  new_end = new_end;
  pending = pending;
}
merge new_start new_end pending ((a, b) ∷ segs) =
    let skipped = merge new_start new_end pending segs in
    let merged = merge (min new_start a) (max new_end b) (sub64 pending (sub64 b a)) segs in
    if leb a new_end
    then if ltb b new_start then record skipped { passed = (a, b) ∷ skipped.passed } else merged
    else record {
      passed = [];
      rest = (a, b) ∷ segs;
      new_start = new_start;
      new_end = new_end;
      pending = pending;
    }

-- `std::map::emplace`: an entry that has the key already stays as it is.
unfoldable pub emplace : ℕ → ℕ → List Segment → List Segment
emplace start end' [] = (start, end') ∷ []
emplace start end' ((a, b) ∷ segs) =
    if ltb a start
    then (a, b) ∷ emplace start end' segs
    else if a == start
    then (a, b) ∷ segs
    else (start, end') ∷ (a, b) ∷ segs

-- The map and `pending_bytes_` after `add_interval`.
unfoldable pub add_segment : ℕ → ℕ → ℕ → List Segment → List Segment × ℕ
unfolding lower_bound step_back merge emplace
add_segment start end' pending segs =
    let (below, from) = lower_bound start segs in
    let (before, it) = step_back start below from in
    let m = merge start end' pending it in
    (
      emplace m.new_start m.new_end (before ++ (m.passed ++ m.rest)),
      add64 m.pending (sub64 m.new_end m.new_start),
    )

unfoldable pub add_interval : ℕ → ℕ → Reassembler → Reassembler
add_interval start end' r =
    let (segs, pending) = add_segment start end' r.pending_bytes r.filled_segments in
    if leb end' start then r else record r { filled_segments = segs; pending_bytes = pending }

-- The inner loop of `flush_contiguous`: collect `len` bytes of the ring from `front_pos` on.
unfoldable pub collect : ℕ → ℕ → ℕ → ℕ → ℕ → List ℕ → List ℕ
collect zero ring_size front_pos len offset ring = []
collect (suc fuel) ring_size front_pos len offset ring =
    let pos = (front_pos + offset) % ring_size in
    let chunk_len = min (len - offset) (ring_size - pos) in
    let rest = collect fuel ring_size front_pos len (offset + chunk_len) ring in
    if ltb offset len then take chunk_len (drop pos ring) ++ rest else []

-- One round of the outer loop of `flush_contiguous`, for the segment at its front.
unfoldable pub push_segment : ℕ → ℕ → Reassembler → Reassembler
unfolding collect
push_segment start end' r =
    let len = sub64 end' start in
    record r {
      output =
          ByteStream.push (collect (suc len) r.ring_size r.front_pos len 0 r.ring_buffer) r.output;
      pending_bytes = sub64 r.pending_bytes len;
      first_unassembled_index = end';
      front_pos = (r.front_pos + len) % r.ring_size;
    }

unfoldable pub flush_loop : List Segment → Reassembler → Reassembler
flush_loop [] r = record r { filled_segments = [] }
flush_loop ((start, end') ∷ segs) r =
    let rest = flush_loop segs (push_segment start end' r) in
    if start == r.first_unassembled_index
    then rest
    else record r { filled_segments = (start, end') ∷ segs }

close_at_eof : Reassembler → Reassembler
close_at_eof r =
    if r.eof_received && (r.first_unassembled_index == r.eof_index)
    then record r { output = ByteStream.close r.output }
    else r

unfoldable pub flush_contiguous : Reassembler → Reassembler
unfolding close_at_eof
flush_contiguous r = close_at_eof (if r.ring_initialized then flush_loop r.filled_segments r else r)

-- The first part of `insert`: the indices, the ring on first use, and the mark of the end.
unfoldable pub locate : Reassembler → Reassembler
locate r =
    let first_unassembled =
      add64 (ByteStream.bytes_popped r.output) (ByteStream.bytes_buffered r.output) in
    record r {
      first_unpopped_index = ByteStream.bytes_popped r.output;
      first_unassembled_index = first_unassembled;
      first_unacceptable_index = add64 first_unassembled (ByteStream.available_capacity r.output);
    }

unfoldable pub ensure_ring : Reassembler → Reassembler
unfolding initialize_ring
ensure_ring r =
    let total_capacity =
      add64 (ByteStream.bytes_buffered r.output) (ByteStream.available_capacity r.output) in
    if not r.ring_initialized && ltb 0 total_capacity then initialize_ring total_capacity r else r

unfoldable pub mark_end : ℕ → Bool → Reassembler → Reassembler
mark_end segment_end_index is_last_substring r =
    if is_last_substring then record r { eof_received = true; eof_index = segment_end_index } else r

unfoldable pub prepare : ℕ → Bool → Reassembler → Reassembler
unfolding locate ensure_ring mark_end
prepare segment_end_index is_last_substring r =
    mark_end segment_end_index is_last_substring (ensure_ring (locate r))

-- The second part: clip the substring to the window and store it.
unfoldable pub store : ℕ → List ℕ → Reassembler → Reassembler
store first_index bytes r =
    let clipped_start = max first_index r.first_unassembled_index in
    let clipped_end = min (add64 first_index (length bytes)) r.first_unacceptable_index in
    let offset_in_data = sub64 clipped_start first_index in
    let len = sub64 clipped_end clipped_start in
    if ltb clipped_start clipped_end
    then add_interval clipped_start clipped_end
        (copy_into_ring clipped_start (take len (drop offset_in_data bytes)) r)
    else r

unfoldable pub insert : ℕ → List ℕ → Bool → Reassembler → Reassembler
unfolding prepare store
insert first_index bytes is_last_substring r =
    let segment_end_index = add64 first_index (length bytes) in
    let ready = prepare segment_end_index is_last_substring r in
    if not ready.ring_initialized
      || leb segment_end_index ready.first_unassembled_index
      || (length bytes == 0)
    then flush_contiguous ready
    else flush_contiguous (store first_index bytes ready)
