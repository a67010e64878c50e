-- ===== src/Tests/Receiving.antt =====
-- The theorems on the receiving side (src/reassembler.cc and src/tcp_receiver.cc) at concrete inputs.
use tiny_tcp_over_tun.Common.{
  ℕ, zero, suc, ◌+◌, ◌-◌, ◌≤◌, ◌<◌, ◌≡◌, ◌⊎◌, ◌↔◌, min, List, [], ◌∷◌, length, slice, ◌||◌, true,
  false, some, arith, refl,
}
use mathlib.Core.Option
use tiny_tcp_over_tun.Wrap32.{Wrap32, wrap, unwrap}
use tiny_tcp_over_tun.ByteStream
use tiny_tcp_over_tun.Reassembler
use tiny_tcp_over_tun.Reassembler.{Reassembler, add_segment, count_bytes_pending}
use tiny_tcp_over_tun.Reassembler.Segments.{IsSorted, IsBelow, Covers, total}
use tiny_tcp_over_tun.Reassembler.Segments.Refine.{add_segment_lem}
use tiny_tcp_over_tun.Reassembler.Stored.{Inv, Known}
use tiny_tcp_over_tun.Reassembler.Store.{Agrees}
use tiny_tcp_over_tun.Reassembler.Insert.{Inserted, insert-Inserted}
use tiny_tcp_over_tun.Reassembler.History.{
  Reach, here, next, inserts, init-Inv, Arrived, Reach-delivers,
}
use tiny_tcp_over_tun.Messages.{TcpSenderMessage}
use tiny_tcp_over_tun.TcpReceiver.{TcpReceiver, receive, send}
use tiny_tcp_over_tun.TcpReceiver.Receive.{
  Taken, receive-Taken, receive_syn-Taken, receive-rst_stays,
}
use tiny_tcp_over_tun.TcpReceiver.Resets.{receive_all, send_rst}
use tiny_tcp_over_tun.TcpReceiver.Send.{needed, send_window, send_ackno}

-- A byte stream of sevens.
abbrev sevens : ℕ → ℕ
sevens i = 7

abbrev two : List ℕ
two = 7 ∷ 7 ∷ []

two-Agrees : (index : ℕ) → Agrees sevens index two
two-Agrees index zero h = refl
two-Agrees index (suc zero) h = refl
two-Agrees index (suc (suc k)) h = absurd (omega arith)

abbrev empty : Reassembler
empty = Reassembler.init (ByteStream.init 8)

empty-Inv : Inv sevens empty
empty-Inv = init-Inv sevens 8 (omega arith)

-- The last two of four bytes came first.
abbrev early : Reassembler
early = Reassembler.insert 2 two true empty

early-Inv : Inv sevens early
early-Inv = (insert-Inserted sevens 2 two true empty empty-Inv (two-Agrees 2) (omega arith)).inv

insert-Inserted_example : Inserted sevens 0 two false early (Reassembler.insert 0 two false early)
insert-Inserted_example =
    insert-Inserted sevens 0 two false early early-Inv (two-Agrees 0) (omega arith)

abbrev whole : Reassembler
whole = Reassembler.insert 0 two false early

-- The whole stream has been put together, and is closed.
whole_output : whole.output.buffer ≡ 7 ∷ 7 ∷ 7 ∷ 7 ∷ []
unfolding Reassembler.insert Reassembler.init ByteStream.init ByteStream.bytes_buffered
    ByteStream.available_capacity ByteStream.bytes_popped Reassembler.flush_contiguous
    Reassembler.add_interval Reassembler.copy_into_ring Reassembler.flush_loop add_segment
    Reassembler.push_segment ByteStream.close ByteStream.push Reassembler.write_at
whole_output = refl

whole-Reach : Reach sevens empty whole
whole-Reach =
    next (next here (inserts 2 two true (two-Agrees 2) (omega arith)))
      (inserts 0 two false (two-Agrees 0) (omega arith))

Reach-delivers_example :
    (whole.output.buffer ≡ slice sevens whole.output.total_poped (length whole.output.buffer))
    × (whole.output.total_poped + length whole.output.buffer ≡ whole.output.total_pushed)
    × ¬ Known whole whole.output.total_pushed
    × (count_bytes_pending whole ≡ total whole.filled_segments)
    × ((i : ℕ) → Known whole i ↔ Arrived whole-Reach i)
Reach-delivers_example = Reach-delivers sevens 8 (omega arith) whole-Reach

add_segment_lem_example :
    let (segs', n) = add_segment 2 6 (total ((1, 3) ∷ (5, 7) ∷ [])) ((1, 3) ∷ (5, 7) ∷ []) in
    IsSorted 0 segs'
    × IsBelow 9 segs'
    × (n ≡ total segs')
    × ((i : ℕ) → Covers segs' i ↔ (((2 ≤ i) × (i < 6)) ⊎ Covers ((1, 3) ∷ (5, 7) ∷ []) i))
add_segment_lem_example =
    add_segment_lem 2 6 0 9 ((1, 3) ∷ (5, 7) ∷ []) (omega arith) (omega arith)
      (omega arith, omega arith, (omega arith, omega arith, tt)) (omega arith, (omega arith, tt))
      (omega arith) (omega arith)

abbrev start : Wrap32
start = record { raw_value = 4294967295 }

abbrev listening : TcpReceiver
listening = record {
  reassembler = empty;
  syn = false;
  fin = false;
  rst = false;
  isn = record { raw_value = 0 };
}

abbrev connected : TcpReceiver
connected = record { reassembler = empty; syn = true; fin = false; rst = false; isn = start }

abbrev opening : TcpSenderMessage
opening = record { seqno = start; syn = true; payload = two; fin = false; rst = false }

-- The first data segment, just after the wrap of the sequence numbers.
abbrev segment : TcpSenderMessage
segment = record { seqno = wrap 1 start; syn = false; payload = two; fin = true; rst = false }

abbrev abort : TcpSenderMessage
abort = record { seqno = start; syn = false; payload = []; fin = false; rst = true }

nothing_pushed : empty.output.total_pushed ≡ 0
unfolding Reassembler.init ByteStream.init
nothing_pushed = refl

not_closed : empty.output.closed ≡ false
unfolding Reassembler.init ByteStream.init
not_closed = refl

receive-Taken_example : Taken sevens 0 segment connected (receive segment connected)
receive-Taken_example =
    receive-Taken sevens 0 segment connected refl refl
      (record {
        no_syn = refl;
        seqno = refl;
        word = omega arith;
        near = omega (arith, nothing_pushed);
        small = omega arith;
        pushed_lt = omega (arith, nothing_pushed);
      })
      empty-Inv (two-Agrees 0) (omega arith)

receive_syn-Taken_example :
    Taken sevens 0 opening (record listening { isn = start }) (receive opening listening)
receive_syn-Taken_example =
    receive_syn-Taken sevens opening listening refl refl refl empty-Inv (two-Agrees 0) (omega arith)

-- A reset, and then a data segment
send_rst_example :
    (send (receive_all (abort ∷ segment ∷ []) connected)).rst ≡ ((send connected).rst || true)
send_rst_example = send_rst (abort ∷ segment ∷ []) connected

receive-rst_stays_example : (receive segment (record connected { rst = true })).rst ≡ true
receive-rst_stays_example = receive-rst_stays segment (record connected { rst = true }) refl

send_window_example :
    (send connected).window_size ≡ min 65535 (empty.output.capacity - length empty.output.buffer)
send_window_example = send_window connected empty-Inv.stream.valid

send_ackno_example :
    Option.map (λ ackno. unwrap ackno start 1) (send connected).ackno ≡ some (needed connected)
send_ackno_example =
    send_ackno connected 1 (omega arith) (omega (arith, nothing_pushed)) (omega arith)
      (ground (arith, nothing_pushed, not_closed))
