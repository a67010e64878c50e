-- ===== src/Adapters/Losses.antt =====
-- `LossyFdAdapter` (util/lossy_fd_adapter.hh): which messages it loses.
use tiny_tcp_over_tun.Common.{ℕ, ◌≡◌, refl}
use tiny_tcp_over_tun.TcpPeer.{TcpMessage}
use tiny_tcp_over_tun.Adapters.{AdapterOps, Lossy, should_drop, read, write}

module _ {A R : Type 0} (ops : AdapterOps A) (next_random : R → ℕ × R) where
  -- With loss rates of zero in both directions, before and after a read, the lossy adapter reads and
  -- writes what the adapter in it does, and draws no random number.
  pub lossless :
      (msg : TcpMessage) (l : Lossy A R)
      → (ops.config l.adapter).loss_rate_up ≡ 0
      → (ops.config (ops.read l.adapter).1).loss_rate_dn ≡ 0
      → (write ops next_random msg l ≡ record l { adapter = ops.write msg l.adapter })
        × (read ops next_random l
            ≡ ((ops.read l.adapter).0, record l { adapter = (ops.read l.adapter).1 }))
  unfolding read write should_drop
  lossless msg l up dn = (rw up refl, rw dn refl)
