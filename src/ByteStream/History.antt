-- ===== src/ByteStream/History.antt =====
-- Histories of calls on a `ByteStream` (src/byte_stream.cc): the bytes come out in the order in
-- which they were accepted.
use tiny_tcp_over_tun.Common.{
  ℕ, ◌≡◌, List, [], ◌∷◌, ◌++◌, take, append_assoc, append-nil, take-append-drop, sym, ap, ◌∙◌,
}
use tiny_tcp_over_tun.ByteStream.{ByteStream, push, pop, close, peek, available_capacity}
use tiny_tcp_over_tun.ByteStream.Invariant.{buffer-push}

-- A call that changes the stream.
pub data Call : Type 0 where
  pushes : List ℕ → Call
  pops : ℕ → Call
  closes : Call

abbrev pub after : Call → ByteStream → ByteStream
after (pushes bytes) s = push bytes s
after (pops len) s = pop len s
after closes s = close s

-- The bytes that a call adds to the stream, and those that it takes from it.
abbrev pub accepted : Call → ByteStream → List ℕ
accepted (pushes bytes) s = take (available_capacity s) bytes
accepted (pops len) s = []
accepted closes s = []

abbrev pub delivered : Call → ByteStream → List ℕ
delivered (pushes bytes) s = []
delivered (pops len) s = take len (peek s)
delivered closes s = []

unfoldable pub run : List Call → ByteStream → ByteStream
run [] s = s
run (c ∷ cs) s = run cs (after c s)

unfoldable pub all_accepted : List Call → ByteStream → List ℕ
all_accepted [] s = []
all_accepted (c ∷ cs) s = accepted c s ++ all_accepted cs (after c s)

unfoldable pub all_delivered : List Call → ByteStream → List ℕ
all_delivered [] s = []
all_delivered (c ∷ cs) s = delivered c s ++ all_delivered cs (after c s)

-- One call keeps the bytes in order.
step_order :
    (c : Call) (s : ByteStream) → delivered c s ++ (after c s).buffer ≡ s.buffer ++ accepted c s
unfolding pop close peek
step_order (pushes bytes) s = buffer-push bytes s
step_order (pops len) s = take-append-drop len s.buffer ∙ sym (append-nil s.buffer)
step_order closes s = sym (append-nil s.buffer)

-- After any calls, the bytes that were taken from the stream followed by those that are left are
-- the bytes that were there at first followed by those that were accepted since.
pub run_in_order :
    (cs : List Call) (s : ByteStream)
    → all_delivered cs s ++ (run cs s).buffer ≡ s.buffer ++ all_accepted cs s
unfolding run all_accepted all_delivered
run_in_order [] s = sym (append-nil s.buffer)
run_in_order (c ∷ cs) s =
    append_assoc (delivered c s) (all_delivered cs (after c s)) (run cs (after c s)).buffer
    ∙ ap (◌++◌ (delivered c s)) (run_in_order cs (after c s))
    ∙ sym (append_assoc (delivered c s) (after c s).buffer (all_accepted cs (after c s)))
    ∙ ap (λ bs. bs ++ all_accepted cs (after c s)) (step_order c s)
    ∙ append_assoc s.buffer (accepted c s) (all_accepted cs (after c s))
