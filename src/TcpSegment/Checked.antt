-- ===== src/TcpSegment/Checked.antt =====
-- The checksum of a TCP segment (util/tcp_segment.cc), when it is written and when it is read.
use tiny_tcp_over_tun.Common.{
  ℕ, zero, suc, ◌+◌, ◌^◌, ◌<◌, ◌≡◌, List, [], ◌∷◌, ◌++◌, length, false, map, arith, ap, sym, ◌∙◌,
  subst, if◌then◌else◌, ◌==◌, AllBytes,
}
use tiny_tcp_over_tun.Ref.{get}
use tiny_tcp_over_tun.Wrap32.{u32}
use tiny_tcp_over_tun.Checksum
use tiny_tcp_over_tun.Checksum.{InternetChecksum}
use tiny_tcp_over_tun.Checksum.Verify.{value_range, value-of_sum}
use tiny_tcp_over_tun.Checksum.Weight.{
  weight, weight-append, weight_bound, sum-weight, add_all-concat,
}
use tiny_tcp_over_tun.Parser.{Parser, pure, ◌>>=◌, ◌>>◌, set_error}
use tiny_tcp_over_tun.Parser.Buffers
use tiny_tcp_over_tun.Parser.Content.{concat}
use tiny_tcp_over_tun.Parser.Serializer.{new, bytes_of, finish}
use tiny_tcp_over_tun.Parser.Holds.{Holds}
use tiny_tcp_over_tun.Parser.Ends.{Ends, and_end, buffer-Gives}
use tiny_tcp_over_tun.Parser.Written.{new-Writes, finish-Writes}
use tiny_tcp_over_tun.TcpSegment.{
  TcpSegment, parse, parse_fields, serialize, compute_checksum, flags_of, ackno_or_zero,
}
use tiny_tcp_over_tun.TcpSegment.Format.{
  front_bytes, segment_bytes, IsSegment, normal, parse_fields-Ends, serialize-Appends,
}

AllBytes-append : (xs ys : List ℕ) → AllBytes xs → AllBytes ys → AllBytes (xs ++ ys)
AllBytes-append [] ys h k = k
AllBytes-append (x ∷ xs) ys (hx, h) k = (hx, AllBytes-append xs ys h k)

bytes_of-AllBytes : (left val : ℕ) → AllBytes (bytes_of left val)
unfolding bytes_of
bytes_of-AllBytes zero val = tt
bytes_of-AllBytes (suc left) val = (omega arith, bytes_of-AllBytes left val)

segment-AllBytes : (seg : TcpSegment) → IsSegment seg → AllBytes (segment_bytes seg)
segment-AllBytes seg ok = field 2 seg.udinfo.src_port _ (
    field 2 seg.udinfo.dst_port _ (
      field 4 seg.message.sender.seqno.raw_value _ (
        field 4 (ackno_or_zero seg.message.receiver.ackno) _ (
          field 1 80 _ (
            field 1 (flags_of seg.message) _ (
              field 2 seg.message.receiver.window_size _
                (field 2 seg.udinfo.cksum _ (field 2 0 _ ok.payload))))))))
  where
    field : (len val : ℕ) (rest : List ℕ) → AllBytes rest → AllBytes (bytes_of len val ++ rest)
    field len val rest h = AllBytes-append (bytes_of len val) rest (bytes_of-AllBytes len val) h

pub segment_size :
    (seg : TcpSegment) → length (segment_bytes seg) ≡ 20 + length seg.message.sender.payload
unfolding bytes_of
segment_size seg = omega arith

abbrev with_checksum : ℕ → TcpSegment → TcpSegment
with_checksum v seg = record seg { udinfo = record seg.udinfo { cksum = v } }

with_checksum-IsSegment :
    (v : ℕ) (seg : TcpSegment) → v < 2 ^ 16 → IsSegment seg → IsSegment (with_checksum v seg)
with_checksum-IsSegment v seg h ok = record {
  src_port = ok.src_port;
  dst_port = ok.dst_port;
  cksum = h;
  seqno = ok.seqno;
  ackno = ok.ackno;
  window_size = ok.window_size;
  payload = ok.payload;
  fits = ok.fits;
}

-- The checksum field adds its value to the weight of a segment.
weight-checksum :
    (v : ℕ) (seg : TcpSegment)
    → v < 2 ^ 16
    → weight false (segment_bytes (with_checksum v seg))
      ≡ weight false (segment_bytes (with_checksum 0 seg)) + v
unfolding bytes_of
weight-checksum v seg h =
    weight-append false (front_bytes seg []) (bytes_of 2 v ++ tail)
    ∙ omega (arith, two)
    ∙ ap (λ n. n + v) (sym (weight-append false (front_bytes seg []) (bytes_of 2 0 ++ tail)))
  where
    tail : List ℕ
    tail = bytes_of 2 0 ++ seg.message.sender.payload

    two : weight false (bytes_of 2 v ++ tail) ≡ weight false (bytes_of 2 0 ++ tail) + v
    two = omega arith

-- What a serializer has written, summed.
written_sum :
    (seg : TcpSegment) (c : InternetChecksum)
    → Checksum.add_all (map get (finish (serialize seg new))) c ≡ Checksum.add (segment_bytes seg) c
written_sum seg c =
    add_all-concat (map get (finish (serialize seg new))) c
    ∙ ap (λ bytes. Checksum.add bytes c)
        (finish-Writes (serialize seg new) (segment_bytes seg)
          (serialize-Appends seg new [] new-Writes)).1

module _ (seg : TcpSegment) (pseudo : ℕ) (ok : IsSegment seg) (small : pseudo < 2 ^ 20) where
  no_overflow : pseudo + weight false (segment_bytes (with_checksum 0 seg)) + 65535 < u32
  no_overflow = omega (
    arith,
    weight_bound false (segment_bytes (with_checksum 0 seg))
        (segment-AllBytes (with_checksum 0 seg) (with_checksum-IsSegment 0 seg (omega arith) ok)),
    segment_size (with_checksum 0 seg),
    ok.fits,
    small,
  )

  abbrev cleared_sum : InternetChecksum
  cleared_sum = Checksum.add (segment_bytes (with_checksum 0 seg)) (Checksum.init pseudo)

  computed : compute_checksum seg pseudo ≡ with_checksum (Checksum.value cleared_sum) seg
  unfolding compute_checksum
  computed =
      ap (λ c. with_checksum (Checksum.value c) seg)
        (written_sum (with_checksum 0 seg) (Checksum.init pseudo))

  -- A segment with its checksum sums to zero.
  value-zero :
      Checksum.value
        (Checksum.add (segment_bytes (compute_checksum seg pseudo)) (Checksum.init pseudo))
      ≡ 0
  unfolding Checksum.init
  value-zero =
      ap (λ s. Checksum.value (Checksum.add (segment_bytes s) (Checksum.init pseudo))) computed
      ∙ value-of_sum cleared_sum
          (Checksum.add (segment_bytes (with_checksum v seg)) (Checksum.init pseudo))
          (omega (arith, before, no_overflow))
          (sum-weight (segment_bytes (with_checksum v seg)) (Checksum.init pseudo)
              (omega (arith, added, no_overflow, value_range cleared_sum))
            ∙ omega (arith, added, before))
    where
      v : ℕ
      v = Checksum.value cleared_sum

      before : cleared_sum.sum ≡ pseudo + weight false (segment_bytes (with_checksum 0 seg))
      before =
          sum-weight (segment_bytes (with_checksum 0 seg)) (Checksum.init pseudo)
            (omega (arith, no_overflow))

      added :
          weight false (segment_bytes (with_checksum v seg))
          ≡ weight false (segment_bytes (with_checksum 0 seg)) + v
      added = weight-checksum v seg (value_range cleared_sum)

  pub checked-IsSegment : IsSegment (compute_checksum seg pseudo)
  checked-IsSegment =
      subst IsSegment (sym computed)
        (with_checksum-IsSegment (Checksum.value cleared_sum) seg (value_range cleared_sum) ok)

  -- A segment with its checksum passes the test, and its fields are read.
  pub parse-Ends :
      (old : TcpSegment) (p : Parser)
      → Holds p (segment_bytes (compute_checksum seg pseudo))
      → Ends (parse old pseudo) p (λ r. r ≡ normal (compute_checksum seg pseudo))
  unfolding parse ◌>>◌ ◌>>=◌
  parse-Ends old p k =
      let (g, content) = buffer-Gives p (segment_bytes (compute_checksum seg pseudo)) k in
      and_end _ _ g (λ q l. checked q l (tested content))
    where
      tested :
          concat (Buffers.buffer p.input) ≡ segment_bytes (compute_checksum seg pseudo)
          → Checksum.value (Checksum.add_all (Buffers.buffer p.input) (Checksum.init pseudo)) ≡ 0
      tested content =
          ap Checksum.value (
            add_all-concat (Buffers.buffer p.input) (Checksum.init pseudo)
            ∙ ap (λ bytes. Checksum.add bytes (Checksum.init pseudo)) content)
          ∙ value-zero

      checked :
          (q : Parser)
          → Holds q (segment_bytes (compute_checksum seg pseudo))
          → Checksum.value (Checksum.add_all (Buffers.buffer p.input) (Checksum.init pseudo)) ≡ 0
          → Ends
              (if Checksum.value (Checksum.add_all (Buffers.buffer p.input) (Checksum.init pseudo))
                  == 0
                then parse_fields old
                else (set_error >>= λ _. pure old))
              q
              (λ r. r ≡ normal (compute_checksum seg pseudo))
      checked q l zero_sum =
          rw zero_sum (parse_fields-Ends (compute_checksum seg pseudo) old q checked-IsSegment l)
