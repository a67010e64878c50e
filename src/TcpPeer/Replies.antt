-- ===== src/TcpPeer/Replies.antt =====
-- What a connection sends when a message arrives (`receive` of util/tcp_peer.hh).
use tiny_tcp_over_tun.Common.{
  ◌+◌, ◌≤◌, ◌<◌, ◌≡◌, ◌⊎◌, inl, inr, List, [], ◌∷◌, ◌++◌, length, length-append, Bool, true, false,
  Option, some, if◌then◌else◌, u64, arith, refl, sym, ◌∙◌, subst,
}
use tiny_tcp_over_tun.Messages.{TcpSenderMessage, TcpReceiverMessage, sequence_length}
use tiny_tcp_over_tun.TcpReceiver
use tiny_tcp_over_tun.TcpSender
use tiny_tcp_over_tun.TcpSender.{TcpSender}
use tiny_tcp_over_tun.TcpSender.Push.Loop.{Pushed}
use tiny_tcp_over_tun.TcpSender.Push.Again.{oldest_again}
use tiny_tcp_over_tun.TcpSender.Steps.{Sound}
use tiny_tcp_over_tun.TcpSender.Steps.Reach.{Step-Sound, received, pushed, push_returns}
use tiny_tcp_over_tun.TcpSender.Steps.Received.{received-next}
use tiny_tcp_over_tun.TcpPeer.{
  TcpMessage, TcpPeer, Transmitted, send_all, push, active, take_message, reply, decide_linger,
  receive,
}

-- Every message carries what the receiver has to say.
abbrev pub AllCarry : TcpReceiverMessage → List TcpMessage → Type 0
AllCarry r [] = Unit {0}
AllCarry r (m ∷ msgs) = (m.receiver ≡ r) × AllCarry r msgs

AllCarry-++ :
    (r : TcpReceiverMessage) (xs ys : List TcpMessage)
    → AllCarry r xs
    → AllCarry r ys
    → AllCarry r (xs ++ ys)
AllCarry-++ r [] ys h k = k
AllCarry-++ r (x ∷ xs) ys (e, h) k = (e, AllCarry-++ r xs ys h k)

-- What the messages of a push become: `owed` is a reply that is still needed.
record Passed (p : TcpPeer) (out : Transmitted) : Type 0 where
  receiver : out.1.receiver ≡ p.receiver
  sender : out.1.sender ≡ p.sender
  time : out.1.time_of_last_receipt ≡ p.time_of_last_receipt
  carries : AllCarry (TcpReceiver.send p.receiver) out.0
  owed : p.need_send ≡ true → (0 < length out.0) ⊎ (out.1.need_send ≡ true)

send_all-Passed : (msgs : List TcpSenderMessage) (p : TcpPeer) → Passed p (send_all msgs p)
unfolding send_all
send_all-Passed [] p = record {
  receiver = refl;
  sender = refl;
  time = refl;
  carries = tt;
  owed = inr;
}
send_all-Passed (m ∷ msgs) p =
    let r = send_all-Passed msgs (record p { need_send = false }) in
    record {
      receiver = r.receiver;
      sender = r.sender;
      time = r.time;
      carries = (refl, r.carries);
      owed = λ _. inl (omega arith);
    }

-- A call of `receive` has returned.
pub record Replied (msg : TcpMessage) (p : TcpPeer) (result : Option Transmitted) : Type 0 where
  pub outs : List TcpMessage
  pub final : TcpPeer
  pub returns : result ≡ some (outs, final)
  pub receiver : final.receiver ≡ TcpReceiver.receive msg.sender p.receiver
  pub carries : AllCarry (TcpReceiver.send final.receiver) outs
  pub answered : 0 < sequence_length msg.sender → 0 < length outs
  pub settled : final.need_send ≡ false
  pub time : final.time_of_last_receipt ≡ p.cumulative_time
  pub sound : Sound final.sender

-- The end of `receive`.
record Finished (p : TcpPeer) (outs : List TcpMessage) (out : Transmitted) : Type 0 where
  receiver : out.1.receiver ≡ p.receiver
  sender : out.1.sender ≡ p.sender
  time : out.1.time_of_last_receipt ≡ p.time_of_last_receipt
  settled : out.1.need_send ≡ false
  grows : length outs ≤ length out.0
  replies : p.need_send ≡ true → 0 < length out.0
  carries :
      AllCarry (TcpReceiver.send p.receiver) outs → AllCarry (TcpReceiver.send p.receiver) out.0

reply-Finished : (outs : List TcpMessage) (p : TcpPeer) → Finished p outs (reply outs p)
unfolding reply
reply-Finished outs p = either p.need_send refl
  where
    answer : TcpMessage
    answer = record {
      sender = TcpSender.make_empty_message p.sender;
      receiver = TcpReceiver.send p.receiver;
    }

    either :
        (b : Bool)
        → p.need_send ≡ b
        → Finished p outs
            (if b then (outs ++ answer ∷ [], record p { need_send = false }) else (outs, p))
    either true e = record {
      receiver = refl;
      sender = refl;
      time = refl;
      settled = refl;
      grows = omega (arith, length-append outs (answer ∷ []));
      replies = λ _. omega (arith, length-append outs (answer ∷ []));
      carries = λ c. AllCarry-++ (TcpReceiver.send p.receiver) outs (answer ∷ []) c (refl, tt);
    }
    either false e = record {
      receiver = refl;
      sender = refl;
      time = refl;
      settled = e;
      grows = omega arith;
      replies = λ f. cc;
      carries = λ c. c;
    }

-- The decision on lingering changes nothing else.
decide_linger-keeps :
    (p : TcpPeer)
    → ((decide_linger p).receiver ≡ p.receiver)
      × ((decide_linger p).sender ≡ p.sender)
      × ((decide_linger p).need_send ≡ p.need_send)
      × ((decide_linger p).time_of_last_receipt ≡ p.time_of_last_receipt)
unfolding decide_linger
decide_linger-keeps p = (ground arith, ground arith, ground arith, ground arith)

push-sends :
    (q : TcpPeer) (msgs : List TcpSenderMessage) (t : TcpSender)
    → TcpSender.push q.sender ≡ some (msgs, t)
    → push q ≡ some (send_all msgs (record q { sender = t }))
unfolding push
push-sends q msgs t e = rw (e, push)

receive-steps :
    (msg : TcpMessage) (p : TcpPeer) (out : Transmitted)
    → active p ≡ true
    → push (take_message msg p) ≡ some out
    → receive msg p ≡ some ((reply out.0 out.1).0, decide_linger (reply out.0 out.1).1)
unfolding receive
receive-steps msg p out act e = rw (act, e, receive)

-- `receive` of an active connection with a sound sender, for a 16-bit window and a next sequence
-- number more than 65535 below 2^64, always returns. The receiver has taken the segment, and the
-- sender is sound again; every message that goes out carries what the receiver then has to say; a
-- segment that occupies a sequence number is answered by at least one message; no reply is owed
-- afterwards; and the time of the last receipt is the present time.
pub receive-Replied :
    (msg : TcpMessage) (p : TcpPeer)
    → active p ≡ true
    → Sound p.sender
    → msg.receiver.window_size ≤ 65535
    → p.sender.next_seqno + 65535 < u64
    → Replied msg p (receive msg p)
unfolding take_message
receive-Replied msg p act so hw hn = record {
  outs = f.0;
  final = decide_linger f.1;
  returns = receive-steps msg p out act (push-sends q messages r.final r.returns);
  receiver = same_receiver;
  carries =
      subst (λ t. AllCarry (TcpReceiver.send t) f.0) (sym (k.0 ∙ g.receiver))
        (g.carries (subst (λ t. AllCarry (TcpReceiver.send t) out.0) (sym s.receiver) s.carries));
  answered = λ h. elim (s.owed (asked h)) [
    | inl some_out ↦ omega (arith, g.grows)
    | inr owed ↦ g.replies owed
  ];
  settled = k.2 ∙ g.settled;
  time = k.3 ∙ g.time ∙ s.time;
  sound =
      subst Sound (sym (k.1 ∙ g.sender ∙ s.sender))
        (Step-Sound (pushed messages room r.returns) heard);
}
  where
    q : TcpPeer
    q = take_message msg p

    heard : Sound q.sender
    heard = Step-Sound (received msg.receiver hw) so

    room : q.sender.next_seqno + 65535 < u64
    room = omega (arith, received-next msg.receiver p.sender so)

    r : Pushed q.sender (TcpSender.push q.sender)
    r = push_returns q.sender heard room

    messages : List TcpSenderMessage
    messages = oldest_again q.sender.fast_retransmit_pending q.sender.outstanding_seqno ++ r.msgs

    out : Transmitted
    out = send_all messages (record q { sender = r.final })

    s : Passed (record q { sender = r.final }) out
    s = send_all-Passed messages (record q { sender = r.final })

    f : Transmitted
    f = reply out.0 out.1

    g : Finished out.1 out.0 f
    g = reply-Finished out.0 out.1

    k :
        ((decide_linger f.1).receiver ≡ f.1.receiver)
        × ((decide_linger f.1).sender ≡ f.1.sender)
        × ((decide_linger f.1).need_send ≡ f.1.need_send)
        × ((decide_linger f.1).time_of_last_receipt ≡ f.1.time_of_last_receipt)
    k = decide_linger-keeps f.1

    same_receiver : (decide_linger f.1).receiver ≡ q.receiver
    same_receiver = k.0 ∙ g.receiver ∙ s.receiver

    asked : 0 < sequence_length msg.sender → q.need_send ≡ true
    asked h = ground (arith, h)
