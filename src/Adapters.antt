-- ===== src/Adapters.antt =====
-- util/tuntap_adapter.{hh,cc} and util/lossy_fd_adapter.hh: datagram adapters of a TCP connection.
pub mod Tun
pub mod Losses
use tiny_tcp_over_tun.Common.{
  ℕ, ◌%◌, ◌^◌, List, [], ◌∷◌, map, take, drop, Bool, true, false, not, ◌&&◌, Option, none, some,
  ◌==◌, ltb, if◌then◌else◌,
}
use tiny_tcp_over_tun.Ref.{Ref, owned, get}
use tiny_tcp_over_tun.Address.{Address}
use tiny_tcp_over_tun.Helpers
use tiny_tcp_over_tun.Parser.Serializer.{new, finish}
use tiny_tcp_over_tun.Ipv4
use tiny_tcp_over_tun.TcpPeer.{TcpMessage}
use tiny_tcp_over_tun.TcpOverIp.{FdAdapterConfig, Adapter, unwrap_tcp_in_ip, wrap_tcp_in_ip}

-- `FileDescriptor::kReadBufferSize`
abbrev pub read_buffer_size : ℕ
read_buffer_size = 16384

-- `FileDescriptor::read` into strings of these sizes, the last one resized, of a packet that is at
-- hand: `readv` fills them in turn and drops what has no room, and each string keeps what it got.
unfoldable pub read_buffers : List ℕ → List ℕ → List (List ℕ)
read_buffers [] packet = []
read_buffers (size ∷ []) packet = take read_buffer_size packet ∷ []
read_buffers (size ∷ next ∷ sizes) packet =
    take size packet ∷ read_buffers (next ∷ sizes) (drop size packet)

-- `read` of `TCPOverIPv4OverTunFdAdapter`, when the TUN device has `packet`
module _ (numeric_address : ℕ → ℕ → Address) where
  unfoldable pub read_tun : List ℕ → Adapter → Option (Option TcpMessage × Adapter)
  unfolding read_buffers
  read_tun packet a =
      let strs = read_buffers (20 ∷ 20 ∷ 0 ∷ []) packet in
      elim (Helpers.parse (Ipv4.parse Ipv4.new_datagram) (map owned strs)) [
        | none ↦ none
        | some (ip_dgram, false) ↦ some (none, a)
        | some (ip_dgram, true) ↦ unwrap_tcp_in_ip numeric_address ip_dgram a
      ]

-- `write` of it: the strings that go to the TUN device
unfoldable pub write_tun : TcpMessage → Adapter → Option (List (List ℕ))
write_tun seg a = elim (wrap_tcp_in_ip seg a) [
  | none ↦ none
  | some ip_dgram ↦ elim (Ipv4.serialize ip_dgram new) [
    | none ↦ none
    | some s ↦ some (map get (finish s))
  ]
]

-- What `LossyFdAdapter` asks of the adapter that it wraps
pub record AdapterOps (A : Type 0) : Type 0 where
  pub config : A → FdAdapterConfig
  pub read : A → Option TcpMessage × A
  pub write : TcpMessage → A → A
  pub set_listening : Bool → A → A
  pub set_config : FdAdapterConfig → A → A
  pub tick : ℕ → A → A

-- `LossyFdAdapter`, with the state of its random numbers
pub record Lossy (A R : Type 0) : Type 0 where
  pub rand : R
  pub adapter : A

-- `next_random` is a number of the random engine, and its next state.
module _ {A R : Type 0} (ops : AdapterOps A) (next_random : R → ℕ × R) where
  -- `_should_drop`: no number is drawn when the rate is zero.
  unfoldable pub should_drop : Bool → Lossy A R → Bool × Lossy A R
  should_drop uplink l =
      let cfg = ops.config l.adapter in
      let loss = if uplink then cfg.loss_rate_up else cfg.loss_rate_dn in
      let (number, rand) = next_random l.rand in
      if loss == 0 then (false, l) else (ltb (number % 2 ^ 16) loss, record l { rand = rand })

  unfoldable pub read : Lossy A R → Option TcpMessage × Lossy A R
  unfolding should_drop
  read l =
      let (ret, adapter) = ops.read l.adapter in
      let (dropped, after) = should_drop false (record l { adapter = adapter }) in
      if dropped then (none, after) else (ret, after)

  unfoldable pub write : TcpMessage → Lossy A R → Lossy A R
  unfolding should_drop
  write seg l =
      let (dropped, after) = should_drop true l in
      if dropped then after else record after { adapter = ops.write seg after.adapter }

  -- The calls that are passed on; `set_config` is an assignment to `config_mut()`.
  unfoldable pass_listening : Bool → Lossy A R → Lossy A R
  pass_listening b l = record l { adapter = ops.set_listening b l.adapter }

  unfoldable pass_config : FdAdapterConfig → Lossy A R → Lossy A R
  pass_config cfg l = record l { adapter = ops.set_config cfg l.adapter }

  unfoldable pass_tick : ℕ → Lossy A R → Lossy A R
  pass_tick ms_since_last_tick l = record l { adapter = ops.tick ms_since_last_tick l.adapter }
