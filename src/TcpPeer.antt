-- ===== src/TcpPeer.antt =====
-- util/tcp_peer.hh: a whole TCP connection, a sender and a receiver that answer for each other.
pub mod Replies
use tiny_tcp_over_tun.Common.{
  ℕ, ◌*◌, ◌%◌, List, [], ◌∷◌, ◌++◌, Bool, true, false, not, ◌&&◌, ◌||◌, Option, none, some, ltb,
  ◌==◌, if◌then◌else◌, add64, u64,
}
use tiny_tcp_over_tun.Wrap32
use tiny_tcp_over_tun.ByteStream
use tiny_tcp_over_tun.Reassembler
use tiny_tcp_over_tun.Messages.{TcpSenderMessage, TcpReceiverMessage, TcpConfig, sequence_length}
use tiny_tcp_over_tun.TcpReceiver
use tiny_tcp_over_tun.TcpReceiver.{TcpReceiver}
use tiny_tcp_over_tun.TcpSender
use tiny_tcp_over_tun.TcpSender.{TcpSender}
use tiny_tcp_over_tun.TcpSender.Acks
use tiny_tcp_over_tun.TcpSender.Timer

-- `TCPMessage` of util/tcp_segment.hh; a `Ref` is what it refers to.
pub record TcpMessage : Type 0 where
  pub sender : TcpSenderMessage
  pub receiver : TcpReceiverMessage

pub record TcpPeer : Type 0 where
  pub cfg : TcpConfig
  pub sender : TcpSender
  pub receiver : TcpReceiver
  pub need_send : Bool
  pub linger_after_streams_finish : Bool
  pub cumulative_time : ℕ
  pub time_of_last_receipt : ℕ

unfoldable pub init : TcpConfig → TcpPeer
init cfg = record {
  cfg = cfg;
  sender = TcpSender.init (ByteStream.init cfg.send_capacity) cfg.isn cfg.rt_timeout;
  receiver = TcpReceiver.init (Reassembler.init (ByteStream.init cfg.recv_capacity));
  need_send = false;
  linger_after_streams_finish = true;
  cumulative_time = 0;
  time_of_last_receipt = 0;
}

abbrev pub Transmitted : Type 0
Transmitted = List TcpMessage × TcpPeer

-- The private `send`: a message of the sender goes out with what the receiver has to say.
unfoldable pub send : TcpSenderMessage → TcpPeer → TcpMessage × TcpPeer
send sender_message p = (
  record { sender = sender_message; receiver = TcpReceiver.send p.receiver },
  record p { need_send = false },
)

-- `make_send( transmit )` on the messages of the sender, one after the other.
unfoldable pub send_all : List TcpSenderMessage → TcpPeer → Transmitted
unfolding send
send_all [] p = ([], p)
send_all (m ∷ msgs) p =
    let (out, p') = send m p in let (outs, p'') = send_all msgs p' in (out ∷ outs, p'')

unfoldable pub push : TcpPeer → Option Transmitted
unfolding send_all
push p = elim (TcpSender.push p.sender) [
  | none ↦ none
  | some (msgs, sender) ↦ some (send_all msgs (record p { sender = sender }))
]

unfoldable pub tick : ℕ → TcpPeer → Option Transmitted
unfolding send_all
tick t p = elim (TcpSender.Timer.tick t p.sender) [
  | none ↦ none
  | some (msgs, sender) ↦
      some
        (send_all msgs (record p { cumulative_time = add64 p.cumulative_time t; sender = sender }))
]

unfoldable pub has_ackno : TcpPeer → Bool
has_ackno p = elim (TcpReceiver.send p.receiver).ackno [ none ↦ false | some ackno ↦ true ]

unfoldable pub lingering : TcpPeer → Bool
lingering p =
    p.linger_after_streams_finish
    && ltb p.cumulative_time (add64 p.time_of_last_receipt ((10 * p.cfg.rt_timeout) % u64))

unfoldable pub active : TcpPeer → Bool
unfolding lingering
active p =
    let inbound = p.receiver.reassembler.output in
    let any_errors = ByteStream.has_error inbound || ByteStream.has_error p.sender.input in
    let sender_active =
      not (TcpSender.sequence_numbers_in_flight p.sender == 0)
      || not (ByteStream.is_finished p.sender.input) in
    let receiver_active = not (ByteStream.is_closed inbound) in
    not any_errors && (sender_active || receiver_active || lingering p)

-- A "keep-alive": its sequence number is the one before the next that is needed.
unfoldable pub is_keep_alive : TcpSenderMessage → TcpPeer → Bool
is_keep_alive msg p = elim (TcpReceiver.send p.receiver).ackno [
  | none ↦ false
  | some ackno ↦ Wrap32.equal (Wrap32.plus msg.seqno 1) ackno
]

-- `receive` up to the call of `push`.
unfoldable pub take_message : TcpMessage → TcpPeer → TcpPeer
unfolding is_keep_alive
take_message msg p = record p {
  time_of_last_receipt = p.cumulative_time;
  need_send = p.need_send || ltb 0 (sequence_length msg.sender) || is_keep_alive msg.sender p;
  receiver = TcpReceiver.receive msg.sender p.receiver;
  sender = TcpSender.Acks.receive msg.receiver p.sender;
}

-- The reply after `push`, if one is still needed.
unfoldable pub reply : List TcpMessage → TcpPeer → Transmitted
unfolding send
reply outs p =
    let (out, p') = send (TcpSender.make_empty_message p.sender) p in
    if p.need_send then (outs ++ out ∷ [], p') else (outs, p)

-- The inbound stream finished before the outbound one: no need to linger.
unfoldable pub decide_linger : TcpPeer → TcpPeer
decide_linger p =
    if ByteStream.is_closed p.receiver.reassembler.output
      && not (ByteStream.is_finished p.sender.input)
    then record p { linger_after_streams_finish = false }
    else p

unfoldable pub receive : TcpMessage → TcpPeer → Option Transmitted
unfolding take_message push reply decide_linger active
receive msg p =
    let handled : Option Transmitted = elim (push (take_message msg p)) [
      | none ↦ none
      | some (outs, p') ↦ let (outs', p'') = reply outs p' in some (outs', decide_linger p'')
    ] in
    if not (active p) then some ([], p) else handled
