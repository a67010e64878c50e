-- ===== src/Lib.antt =====
-- TinyTCP over TUN: a user-space TCP stack in C++, as models of its classes and theorems on them.
--
-- The parts and how they interact. A `ByteStream` is a bounded queue of bytes with a writer and a
-- reader. A `Reassembler` owns one and writes to it what it puts together from substrings that
-- arrive in any order. A `TCPReceiver` owns a `Reassembler`: it turns the sequence numbers of the
-- peer's segments into stream indices, inserts their payloads, and answers with an acknowledgment
-- number and a window. A `TCPSender` owns the outbound `ByteStream`: it cuts it into segments that
-- the window admits, keeps those in flight, retransmits on a timeout or on three duplicate
-- acknowledgments, and runs Reno congestion control. A `TCPPeer` owns one of each: what arrives goes
-- to both, and what the sender transmits carries what the receiver has to say. An adapter wraps the
-- messages of a connection in TCP segments and these in Internet datagrams, for the TUN device, and
-- unwraps what comes back. The wire formats are written with a `Serializer` and read with a `Parser`.
-- A `NetworkInterface` puts datagrams into Ethernet frames, and asks by ARP for the addresses that it
-- does not know. A `Router` has several of them, and a trie of routes by address prefix: it takes the
-- datagrams off their queues and sends each on through the interface of the best match.
--
-- Which file models which part:
--   Wrap32       src/wrapping_integers.{hh,cc}: `Wrap32`, wrap and unwrap
--   ByteStream   src/byte_stream.{hh,cc}; ByteStream/Read: src/byte_stream_helpers.cc
--   Reassembler  src/reassembler.{hh,cc}; its children prove the theorems, in the order map of
--                segments (Segments), ring buffer (Ring), invariant (Stored), flush (Flush, Settle),
--                storing (Store, Clip), opening lines (Prepare), `insert` (Insert), histories
--                (History), error flag (Errors)
--   Messages     util/tcp_sender_message.hh, util/tcp_receiver_message.hh, util/tcp_config.hh
--   TcpReceiver  src/tcp_receiver.{hh,cc}; Receive, Send and Resets hold the theorems
--   TcpSender    src/tcp_sender.{hh,cc}: state and `push`; Acks: `receive`; Timer: `tick`;
--                Push, Books and Steps hold the theorems
--   TcpPeer      util/tcp_peer.hh, and `TCPMessage` of util/tcp_segment.hh: a connection, that is a
--                sender and a receiver which answer for each other; Replies holds the theorem
--   Ref          util/ref.hh
--   Parser       util/parser.{hh,cc}: `Parser`; Buffers: its `BufferList`; Serializer: `Serializer`;
--                Content, Holds, Gives, Ends, Integers and Written hold the lemmas on them
--   Helpers      util/helpers.hh: the templates `serialize` and `parse`
--   Ethernet     util/ethernet_header.{hh,cc}, util/ethernet_frame.hh
--   Arp          util/arp_message.{hh,cc}
--   Ipv4         util/ipv4_header.{hh,cc}, util/ipv4_datagram.hh
--   TcpSegment   util/tcp_segment.{hh,cc}, util/udinfo.hh
--   TcpOverIp    util/tcp_over_ip.{hh,cc}, util/fd_adapter.hh, `FdAdapterConfig` of util/tcp_config.hh
--   Adapters     util/tuntap_adapter.{hh,cc}, util/lossy_fd_adapter.hh, and the read into several
--                strings of util/file_descriptor.cc
--   Address      util/address.{hh,cc}: IPv4 addresses as numbers
--   NetworkInterface  src/network_interface.{hh,cc}
--   Router       src/router.{hh,cc}: the trie, `add_route` and the search for the best match; Forward:
--                the interfaces and `route`
--   Checksum     util/checksum.hh: the Internet checksum
--   Tests        the theorems at concrete inputs
--   Common       lists, Boolean tests and 64-bit arithmetic that the parts share
--
-- A class is a record with the source's fields, without the trailing underscore, and a method is a
-- function on it with the method's name; a long method is composed of functions named for its
-- steps. A `uint64_t` is a natural number, and every sum, difference and product of the source that
-- can leave 64 bits is reduced modulo 2 ^ 64 (`add64`, `sub64`). Bytes are natural numbers and a
-- string is a list of them. A call of a `transmit` function is an entry of the list of messages that
-- the operation returns, and a frame that goes to an output port is an entry of a list that the
-- interface keeps. A `std::map` is the list of its entries in order, a `std::deque` a list, a
-- `std::unordered_map` a list of keys and values. An operation that can throw, or run into undefined
-- behaviour, returns an `Option`. Parsers are composed in a small monad, `Parse`.
--
-- Loops. `copy_loop`, `collect` and `read_loop` run on fuel of one more than the bytes to move,
-- `push_loop` on one more than the window, since each round but the last moves a byte or sends a
-- sequence number, `avoid_loop` on one more than the bytes acknowledged, and `fold` on three rounds,
-- since two leave less than 2 ^ 16 of 32 bits. `send_pending` and `route_queue` run on one more than
-- the length of the queue that they empty, and `copy_string` on one more than the bytes to copy. The
-- other loops are structural.
--
-- Parameters. `numeric_address` is the address that the system's resolver gives for a number written
-- as a dotted quad, `next_random` the random engine of the lossy adapter, and `AdapterOps` the adapter
-- that it wraps. The packet that a TUN device has for a read is an argument of `read_tun`: one packet
-- for one read, and `writev` of several strings makes one packet of them.
--
-- Not modelled: the sockets, the event loop and its threads, the system calls of the TUN device, the
-- resolver, the printing functions and the applications. The lifetime of a `string_view` is not
-- modelled either, since `peek` returns the bytes, and a borrowed `Ref` is the object it points to.
pub mod Common
pub mod Wrap32
pub mod ByteStream
pub mod Reassembler
pub mod Messages
pub mod TcpReceiver
pub mod TcpSender
pub mod Ref
pub mod Parser
pub mod Ethernet
pub mod Arp
pub mod Ipv4
pub mod Helpers
pub mod Address
pub mod NetworkInterface
pub mod TcpSegment
pub mod TcpOverIp
pub mod Adapters
pub mod Checksum
pub mod Router
pub mod TcpPeer
pub mod Tests
