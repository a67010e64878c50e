-- ===== src/TcpSender/Push/Again.antt =====
-- The fast retransmission that begins `TCPSender::push` (src/tcp_sender.cc).
use tiny_tcp_over_tun.Common.{
  ◌≡◌, List, [], ◌∷◌, take, Bool, true, false, if◌then◌else◌, arith, refl,
}
use tiny_tcp_over_tun.Messages.{TcpSenderMessage}
use tiny_tcp_over_tun.TcpSender.{TcpSender, Sent, fast_retransmit}
use tiny_tcp_over_tun.TcpSender.Push.{Idle}
use tiny_tcp_over_tun.TcpSender.Push.Ran.{Idle-refl}

pub fast_retransmit-Idle : (s : TcpSender) → Idle s (fast_retransmit s).1
unfolding fast_retransmit
fast_retransmit-Idle s = either s.fast_retransmit_pending
  where
    either :
        (b : Bool)
        → Idle s (
            let chosen : Sent =
              if b
              then (take 1 s.outstanding_seqno, record s { fast_retransmit_pending = false })
              else ([], s) in
            chosen.1)
    either true = record {
      same = record {
        isn = refl;
        window_size = refl;
        cwnd = refl;
        ackno = refl;
        closed = refl;
        elapsed = refl;
        rto = refl;
        initial_rto = refl;
        ssthresh = refl;
        retransmissions = refl;
        duplicates = refl;
      };
      input = refl;
      outstanding = refl;
      next = refl;
      flight = refl;
      timer = refl;
    }
    either false = Idle-refl s

pub fast_retransmit-rests : (s : TcpSender) → (fast_retransmit s).1.fast_retransmit_pending ≡ false
unfolding fast_retransmit
fast_retransmit-rests s = ground arith

-- The oldest segment, if a fast retransmission waits.
abbrev pub oldest_again : Bool → List TcpSenderMessage → List TcpSenderMessage
oldest_again false outstanding = []
oldest_again true [] = []
oldest_again true (m ∷ outstanding) = m ∷ []

pub fast_retransmit-oldest :
    (s : TcpSender)
    → (fast_retransmit s).0 ≡ oldest_again s.fast_retransmit_pending s.outstanding_seqno
unfolding fast_retransmit
fast_retransmit-oldest s = either s.fast_retransmit_pending s.outstanding_seqno
  where
    either :
        (b : Bool) (outstanding : List TcpSenderMessage)
        → (let chosen : Sent =
              if b
              then (take 1 outstanding, record s { fast_retransmit_pending = false })
              else ([], s) in
            chosen.0)
          ≡ oldest_again b outstanding
    either true [] = refl
    either true (m ∷ outstanding) = refl
    either false outstanding = refl
