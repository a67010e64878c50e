-- ===== src/Tests/Wires.antt =====
-- The theorems on the wire formats and the datagram adapters (util/arp_message.cc,
-- util/tcp_over_ip.cc, util/tuntap_adapter.cc) at concrete inputs.
use tiny_tcp_over_tun.Common.{ℕ, ◌≡◌, List, [], ◌∷◌, map, true, false, some, arith, refl}
use tiny_tcp_over_tun.Address.{Address}
use tiny_tcp_over_tun.Ref.{copy}
use tiny_tcp_over_tun.Parser.Serializer.{Serializer, new, finish}
use tiny_tcp_over_tun.Helpers
use tiny_tcp_over_tun.Arp
use tiny_tcp_over_tun.Arp.{ArpMessage}
use tiny_tcp_over_tun.Arp.Format.{IsMessage, parse-serialize}
use tiny_tcp_over_tun.Ipv4.{Ipv4Datagram}
use tiny_tcp_over_tun.TcpPeer.{TcpMessage}
use tiny_tcp_over_tun.TcpSegment.{ackno_or_zero}
use tiny_tcp_over_tun.TcpSegment.Format.{one_rst}
use tiny_tcp_over_tun.TcpOverIp.{Adapter, wrap_tcp_in_ip, unwrap_tcp_in_ip}
use tiny_tcp_over_tun.TcpOverIp.Wrapped
use tiny_tcp_over_tun.TcpOverIp.Wrapped.{IsEndpoint}
use tiny_tcp_over_tun.TcpOverIp.Unwrapped.{Peers}
use tiny_tcp_over_tun.Adapters.{read_tun, write_tun}
use tiny_tcp_over_tun.Parser.Content.{concat}
use tiny_tcp_over_tun.Adapters.Tun.{read-write_tun}
use tiny_tcp_over_tun.TcpOverIp.Accepts.{unwrap-syn}

abbrev answer : ArpMessage
answer = record Arp.new_message {
  opcode = 2;
  sender_ethernet_address = 2 ∷ 0 ∷ 0 ∷ 0 ∷ 0 ∷ 1 ∷ [];
  sender_ip_address = 167772161;
  target_ethernet_address = 2 ∷ 0 ∷ 0 ∷ 0 ∷ 0 ∷ 2 ∷ [];
  target_ip_address = 167772162;
}

answer-IsMessage : IsMessage answer
unfolding Arp.supported
answer-IsMessage = record {
  supported = refl;
  sender_ethernet = (
    (omega arith, (omega arith, (omega arith, (omega arith, (omega arith, (omega arith, tt)))))),
    refl,
  );
  sender_ip = omega arith;
  target_ethernet = (
    (omega arith, (omega arith, (omega arith, (omega arith, (omega arith, (omega arith, tt)))))),
    refl,
  );
  target_ip = omega arith;
}

parse-serialize_example :
    (s : Serializer) × (Arp.serialize answer new ≡ some s)
    × (Helpers.parse (Arp.parse Arp.new_message) (map copy (finish s)) ≡ some (answer, true))
parse-serialize_example = parse-serialize answer answer-IsMessage

abbrev pub client : Adapter
client = record {
  cfg = record {
    source = record { ip = 167772161; port = 40000 };
    destination = record { ip = 167772162; port = 80 };
    loss_rate_dn = 0;
    loss_rate_up = 0;
  };
  listen = false;
}

abbrev server : Adapter
server = record {
  cfg = record {
    source = record { ip = 167772162; port = 80 };
    destination = record { ip = 167772161; port = 40000 };
    loss_rate_dn = 0;
    loss_rate_up = 0;
  };
  listen = false;
}

-- A segment with two bytes, an acknowledgment and an RST of the receiver.
abbrev pub message : TcpMessage
message = record {
  sender = record {
    seqno = record { raw_value = 4294967295 };
    syn = true;
    payload = 104 ∷ 105 ∷ [];
    fin = true;
    rst = false;
  };
  receiver = record { ackno = some (record { raw_value = 7 }); window_size = 65535; rst = true };
}

pub message-IsMessage : Wrapped.IsMessage message
unfolding ackno_or_zero
message-IsMessage = record {
  seqno = omega arith;
  ackno = omega arith;
  window_size = omega arith;
  payload = (omega arith, (omega arith, tt));
  fits = omega arith;
}

pub client-IsEndpoint : IsEndpoint client
client-IsEndpoint = record {
  source = record { ip = omega arith; port = omega arith };
  destination = record { ip = omega arith; port = omega arith };
}

client-Peers : Peers client server
client-Peers = record { ours = refl; theirs = refl; connected = refl }

abbrev numeric : ℕ → ℕ → Address
numeric ip port = record { ip = ip; port = port }

read-write_tun_example :
    (strs : List (List ℕ)) × (write_tun message client ≡ some strs)
    × (read_tun numeric (concat strs) server ≡ some (some (one_rst message), server))
read-write_tun_example =
    read-write_tun numeric message client server message-IsMessage client-IsEndpoint client-Peers
      (omega arith)

-- The first segment of the client, to a server that listens on port 80 of any address.
abbrev opening : TcpMessage
opening = record message {
  sender = record message.sender { payload = []; fin = false };
  receiver = record message.receiver { rst = false };
}

opening-IsMessage : Wrapped.IsMessage opening
unfolding ackno_or_zero
opening-IsMessage = record {
  seqno = omega arith;
  ackno = omega arith;
  window_size = omega arith;
  payload = tt;
  fits = omega arith;
}

abbrev listener : Adapter
listener = record {
  cfg = record server.cfg {
    source = record { ip = 0; port = 80 };
    destination = record { ip = 0; port = 0 };
  };
  listen = true;
}

unwrap-syn_example :
    (d : Ipv4Datagram) × (after : Adapter) × (wrap_tcp_in_ip opening client ≡ some d)
    × (unwrap_tcp_in_ip numeric d listener ≡ some (some (one_rst opening), after))
    × Peers client after
unwrap-syn_example =
    unwrap-syn numeric (λ ip port h k. refl) opening client listener opening-IsMessage
      client-IsEndpoint refl refl refl refl
