-- ===== src/Lib.antt =====
-- A verification library of FPTN, a VPN: the server's address translation, packet queue and traffic
-- shaper, the paths of packets through it, its users, the plugins and tunnels of the client, and the
-- obfuscators and frames of the protocol.
--
-- The server hands every client session a private IPv4 and IPv6 address and translates packets between
-- the tunnel and the clients. The modules, with the code they model:
--
-- - Network: src/common/network. `Address` is ip_address.h, `Ipv4Generator` and `Ipv6Generator` are the
--   generators of the address pools, `Ipv6Utils` is ipv6_utils.h. A method that changes an object
--   takes its record and returns the new one. Boost.Asio, which parses and prints addresses, is the
--   parameter `Asio`.
-- - Shaper: src/fptn-server/traffic_shaper/leaky_bucket.cpp, a limit on bytes in a second.
-- - Channel: src/common/data/channel.h, the bounded queue between the threads. `Fifo` and `Capacity`
--   are on sequences of calls by any threads.
-- - Nat.Connection: src/fptn-server/nat/connect_params.h and client_connection, the parameters of a
--   connection and its roles over time.
-- - Nat.Multiplexer: src/fptn-server/nat/connection_multiplexer, the connections of one session.
--   `Roles` and `Members` follow them through the operations.
-- - Nat.Table: src/fptn-server/nat/table.cpp, all sessions with the maps that find them and the free
--   addresses. `Invariant` says what a well-formed table is. `Open`, `Join`, `Release` and `Shrink`
--   follow the changes a method is made of, `Operations` and `Update` put them together, and
--   `History` is on sequences of calls. Pool has lemmas on the addresses.
--
-- - Obfuscator: src/fptn-protocol-lib/https/obfuscator/methods. `Wire` has what the formats share, `Tls`
--   is tls/tls_obfuscator.cpp, `Tls2` is tls2/tls_obfuscator2.cpp, `Detector` is detector.h. In both
--   formats `Records` is on reading one record and `Roundtrip` on what the receiver makes of what the
--   sender made; `Resync` is on records behind other bytes. The state is the input buffer.
--
-- - Packet: src/common/network/ip_packet.h, what is read of a packet. `Checksum` is Rfc1071
--   of src/common/network/ip_utils.h.
-- - Filter: src/fptn-server/filter, the filters of the packets of clients. `BitTorrent` and `AntiScan`
--   are the two filters, `apply` is the manager. Nat.Multiplexer.Receiver uses the packet to choose
--   the client that gets it.
--
-- - Packet: `Transport` writes the checksums of IPv4 and IPv6 packets, with what a receiver adds up in
--   its `Receiver`, and `Rewrite` has the setters that
--   use them. `Reader` is reading through a pointer, where a read past the end is a result of its own;
--   `Dns` has the DNS readers and `TlsHello` those of a TLS client hello.
-- - VpnManager: src/fptn-server/vpn/manager.cpp, a round of the loops that join the interface, the
--   table, the shapers, the filters and the clients. `Delivery` is on single packets, `Transit` on the
--   table, `Batches` on a round.
-- - Handshake: src/fptn-server/web/handshake, the cache of the answers of real servers that strangers
--   are shown. What a server answers and what other coroutines do to the cache are parameters.
-- - Yaff: src/fptn-protocol-lib/protocol/yaff, the check of a frame before the Yaff library follows its
--   offsets. `Safety` is on the reads of the check, `Inverse` on what each step has seen, `Inside` on
--   frames that pass.
-- - Tunnels: src/fptn-protocol-lib/connection. `Parallel` is strategies/parallel_tunnels, a pool of
--   connections: `Lifetime` plans when the next closes, `Sorting` and `Apart` are about that, `Rounds`
--   fills the pool, and `Pool`, `Sending` and `Startup` are about it. `Mimicry` is
--   strategies/browser_mimicry, where `Lists` counts the connections of the lists and `Consistent` is
--   on every pool that its steps reach. `Manager` is connection_manager: `Login`, and `Reconnect` on
--   its loop. What clients are at a moment, and what servers answer, are parameters. Undefined
--   behaviour is a result of its own, `none` in `Mimicry` and `out_of_bounds` in `Packet.Reader`.
-- - Users: src/common/user/common_user_manager.h. `Users` reads and writes the file, where `Decimal`,
--   `Line` and `File` are on numbers, lines and files; `Store` has the operations, `Savable` their
--   invariant and `Accounts` who may log in.
-- - Text: src/common/utils/utils.h, the trimming and splitting of texts.
-- - Plugins: src/fptn-client/plugins. `DomainBlacklist` drops the packets of blacklisted domains,
--   `Tunneling` sends domains past the VPN.
--
-- The function names are those of the code in lower case. The table uses the generators when it is
-- constructed; it uses the multiplexers through a heap from addresses to records, so that a change
-- through one of the four maps is seen by all.
--
-- Numbers: machine integers are natural numbers with their wrap-around written out. Time points are
-- nanoseconds of a steady clock, which is a sequence of readings; that the clock does not run
-- backwards is a hypothesis, and that its 64 bits do not overflow is assumed. The obfuscators stamp
-- records with seconds in 32 bits, which wrap as in C++. What is drawn at random is an argument. Every loop is a
-- structural recursion, but for the fold of the checksum, which runs on fuel for two rounds: a sum of
-- 32 bits is below 2 ^ 16 by then; and for the search in a client hello, whose fuel is the length of
-- the bytes, as every round takes four. The rounds of the DNS loops are those of the code. The loop of the connection manager
-- runs on fuel for the connections it may make and one round more; digits are as many as the number
-- at most.
--
-- Not modelled: logging, metrics, exceptions of the allocator, the web server but for its handshake
-- cache, TLS, devices, the configuration, the other strategies of the tunnels, and the user
-- interface and routes of the client. The threads of the server are sequences of rounds, as the table and the channel lock themselves.
pub mod Base
pub mod Network
pub mod Shaper
pub mod Channel
pub mod Nat
pub mod Obfuscator
pub mod Packet
pub mod Filter
pub mod VpnManager
pub mod Text
pub mod Plugins
pub mod Handshake
pub mod Yaff
pub mod Tunnels
pub mod Users
