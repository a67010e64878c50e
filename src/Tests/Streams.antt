-- ===== src/Tests/Streams.antt =====
-- The theorems on sequence numbers and byte streams (src/wrapping_integers.cc, src/byte_stream.cc and
-- src/byte_stream_helpers.cc) at concrete inputs.
use tiny_tcp_over_tun.Common.{◌≤◌, ◌≡◌, ◌↔◌, List, [], ◌∷◌, ◌++◌, length, take, true, arith, refl}
use tiny_tcp_over_tun.Wrap32.{Wrap32, wrap, unwrap}
use tiny_tcp_over_tun.Wrap32.Unwrap.{wrap-unwrap, unwrap-wrap, unwrap_closest, dist}
use tiny_tcp_over_tun.ByteStream.{ByteStream, init, push, pop, bytes_buffered, is_finished, close}
use tiny_tcp_over_tun.ByteStream.Invariant.{
  IsValid, init-IsValid, push-IsValid, pop-IsValid, is_finished_iff,
}
use tiny_tcp_over_tun.ByteStream.History.{
  Call, pushes, pops, closes, run, run_in_order, all_accepted, all_delivered,
}
use tiny_tcp_over_tun.ByteStream.Read.{read, read_takes, done, Took}

abbrev low : Wrap32
low = record { raw_value = 15 }

abbrev high : Wrap32
high = record { raw_value = 4294967290 }

wrap-unwrap_example : wrap (unwrap low high 10000000000) high ≡ low
wrap-unwrap_example = wrap-unwrap low high 10000000000 (omega arith) (omega arith) (omega arith)

unwrap-wrap_example : unwrap (wrap 10000000007 high) high 10000000000 ≡ 10000000007
unwrap-wrap_example =
    unwrap-wrap 10000000007 high 10000000000 (omega arith) (omega arith) (omega arith) (omega arith)

wraps : wrap 21 high ≡ low
unfolding wrap
wraps = refl

unwrap_closest_example : dist (unwrap low high 10000000000) 10000000000 ≤ dist 21 10000000000
unwrap_closest_example =
    unwrap_closest low high 10000000000 21 (omega arith) (omega arith) (omega arith) wraps

-- A stream of capacity four that has lost two of its five bytes to the capacity.
abbrev four : ByteStream
four = push (1 ∷ 2 ∷ 3 ∷ []) (init 4)

four-IsValid : IsValid four
four-IsValid = push-IsValid (1 ∷ 2 ∷ 3 ∷ []) (init 4) (init-IsValid 4 (omega arith))

push-IsValid_example : IsValid (push (8 ∷ 9 ∷ []) four)
push-IsValid_example = push-IsValid (8 ∷ 9 ∷ []) four four-IsValid

three_buffered : 2 ≤ bytes_buffered four
unfolding bytes_buffered push init
three_buffered = omega arith

pop-IsValid_example : IsValid (pop 2 four)
pop-IsValid_example = pop-IsValid 2 four four-IsValid three_buffered

is_finished_iff_example :
    (is_finished four ≡ true) ↔ ((four.closed ≡ true) × (length four.buffer ≡ 0))
is_finished_iff_example = is_finished_iff four four-IsValid

abbrev calls : List Call
calls = pushes (1 ∷ 2 ∷ 3 ∷ []) ∷ pops 2 ∷ pushes (4 ∷ 5 ∷ 6 ∷ 7 ∷ []) ∷ closes ∷ pops 1 ∷ []

run_in_order_example :
    all_delivered calls (init 4) ++ (run calls (init 4)).buffer
    ≡ (init 4).buffer ++ all_accepted calls (init 4)
run_in_order_example = run_in_order calls (init 4)

-- The last of the seven bytes did not fit.
run_accepts : all_accepted calls (init 4) ≡ 1 ∷ 2 ∷ 3 ∷ 4 ∷ 5 ∷ 6 ∷ []
unfolding all_accepted init push pop close
run_accepts = refl

read_takes_example :
    (s' : ByteStream) × (read four 2 ≡ done (take 2 four.buffer) s') × Took 2 four s'
read_takes_example = read_takes 2 four four-IsValid
