-- ===== src/TcpReceiver/Resets.antt =====
-- RST on the receiving side (src/tcp_receiver.cc): which messages make `send` answer with RST.
use tiny_tcp_over_tun.Common.{◌≡◌, List, [], ◌∷◌, Bool, true, false, ◌||◌, arith, refl, ap, ◌∙◌}
use tiny_tcp_over_tun.ByteStream
use tiny_tcp_over_tun.Reassembler.Errors.{insert-error}
use tiny_tcp_over_tun.Messages.{TcpSenderMessage}
use tiny_tcp_over_tun.TcpReceiver.{
  TcpReceiver, see_syn, reset, first_index, take_payload, receive, send,
}

-- Messages received one after the other
abbrev pub receive_all : List TcpSenderMessage → TcpReceiver → TcpReceiver
receive_all [] r = r
receive_all (message ∷ messages) r = receive_all messages (receive message r)

abbrev pub any_rst : List TcpSenderMessage → Bool
any_rst [] = false
any_rst (message ∷ messages) = message.rst || any_rst messages

rst_after :
    (message : TcpSenderMessage) (r : TcpReceiver)
    → (send (receive message r)).rst ≡ ((send r).rst || message.rst)
unfolding send receive see_syn reset take_payload ByteStream.has_error ByteStream.set_error
rst_after message r = ground (
  arith,
  insert-error (first_index message (see_syn message r)) message.payload message.fin r.reassembler,
)

or_assoc : (a b c : Bool) → ((a || b) || c) ≡ (a || (b || c))
or_assoc true b c = refl
or_assoc false b c = refl

or_false : (a : Bool) → a ≡ (a || false)
or_false true = refl
or_false false = refl

-- After any messages, the receiver's own message carries RST exactly when it did before or one of
-- the messages had RST: no SYN, data or FIN in between sets or clears it.
pub send_rst :
    (messages : List TcpSenderMessage) (r : TcpReceiver)
    → (send (receive_all messages r)).rst ≡ ((send r).rst || any_rst messages)
send_rst [] r = or_false (send r).rst
send_rst (message ∷ messages) r =
    send_rst messages (receive message r)
    ∙ ap (λ b. b || any_rst messages) (rst_after message r)
    ∙ or_assoc (send r).rst message.rst (any_rst messages)
